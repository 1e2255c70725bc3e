-- ===== src/Planner/Tests.antt =====
-- The properties of the planner at concrete inputs.
use mathlib.Core.List.{Memᴰ}
use chc_rental.Base.{◌≡◌, ◌≢◌, refl, true, false, none, some, [], ◌∷◌}
use chc_rental.Base.Table.{any_where, rows_where, All}
use chc_rental.Planner.Incremental.{Hashing, planned_scopes}
use chc_rental.Planner.Scopes.{IsOwn, same_id}
use chc_rental.Planner.Shared.{is_watched, plan_shares}
use chc_rental.Base.Table.Distinct.{Distinct}
use chc_rental.Text.{normalize_text, split, join, lower, is_space, lower_char}
use chc_rental.Models.{
  PropertyType, Group, property_type_group, immediate, Search, active_searches, AllowlistEntry,
  Allowlist, active_people,
}
use chc_rental.Matching.{
  text_in, is_subset, overlaps, has_group, city_matches, state_matches, district_matches,
  sqft_matches, features_match, matches_search,
}
use chc_rental.Planner.{wanted, Bucket, envelope_query, plan_queries}
use chc_rental.Planner.Envelope.{has_type}
use chc_rental.Planner.Covers.{lets_through, plan_covers}
use chc_rental.Planner.Cost.{same_place, plan_once, other_left_out}
use chc_rental.Ledger.Outbox.Tests.{sample_listing}

abbrev pub sample_search : Search
sample_search = record {
  search_id = some "s";
  name = b'n' ∷ [];
  active = true;
  city = b'a' ∷ b' ' ∷ [];
  state = some (b'T' ∷ b'X' ∷ []);
  district = none;
  price_min = 1000;
  price_max = 2000;
  property_types = PropertyType.studio ∷ PropertyType.other ∷ [];
  bed_min = 1;
  bed_max = 3;
  bath_min = 100;
  bath_max = 200;
  sqft_min = some 500;
  sqft_max = none;
  required_features = [];
  excluded_features = (b'p' ∷ []) ∷ [];
  daily_cap = 3;
}

abbrev pub sample_person : AllowlistEntry
sample_person = record {
  telegram_id = 9;
  display_name = b'P' ∷ [];
  active = true;
  profile = record {
    delivery_time = (9, 30);
    timezone = "America/Chicago";
    delivery_mode = immediate;
    quiet_hours_start = none;
    quiet_hours_end = none;
    notify_on_no_results = false;
    searches = sample_search ∷ [];
  };
}

abbrev pub sample_allowlist : Allowlist
sample_allowlist = record { schema_version = 2; people = sample_person ∷ [] }

sample_matches : matches_search sample_listing sample_search ≡ true
unfolding matches_search city_matches state_matches district_matches sqft_matches features_match
    is_subset overlaps text_in has_group property_type_group normalize_text lower join split
    is_space lower_char
sample_matches = refl

person_there : Memᴰ sample_person (active_people sample_allowlist)
unfolding active_people rows_where
person_there = Memᴰ.head refl

search_there : Memᴰ sample_search (active_searches sample_person.profile)
unfolding active_searches rows_where
search_there = Memᴰ.head refl

plan_covers_example :
    any_where
      (lets_through sample_listing sample_search (b'T' ∷ b'X' ∷ []))
      (plan_queries sample_allowlist).0
    ≡ true
plan_covers_example =
    plan_covers sample_allowlist sample_person sample_search (b'T' ∷ b'X' ∷ []) sample_listing
      person_there search_there refl sample_matches (unfold property_type_group in refl)

plan_once_example : Distinct same_place (plan_queries sample_allowlist).0
plan_once_example = plan_once sample_allowlist

abbrev sample_bucket : Bucket
sample_bucket = record {
  city_key = b'a' ∷ [];
  state_key = b'T' ∷ b'X' ∷ [];
  display_city = b'a' ∷ [];
  first = sample_search;
  others = [];
}

other_left_out_example :
    ((envelope_query sample_bucket).property_types ≢ [])
    × (has_type Group.other (envelope_query sample_bucket) ≡ false)
other_left_out_example =
    other_left_out sample_bucket Group.apartment
      (unfold wanted any_where has_group property_type_group in refl) refl

abbrev pub sample_hashing : Hashing
sample_hashing = record { canonical = λ q. "query"; query_id_of = λ t. "zillow:1" }

plan_shares_example :
    (any_where (is_watched "zillow:1" 9 "s") (planned_scopes sample_hashing sample_allowlist).0
      ≡ true)
    × Distinct same_id (planned_scopes sample_hashing sample_allowlist).0
    × All (IsOwn sample_hashing) (planned_scopes sample_hashing sample_allowlist).0
plan_shares_example =
    plan_shares sample_hashing sample_allowlist sample_person sample_search (b'T' ∷ b'X' ∷ []) "s"
      person_there search_there refl refl
