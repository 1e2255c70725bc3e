-- ===== src/Pipeline/Plan.antt =====
-- `_unique` and `plan_pushes` of src/chc_rental/pipeline.py. The keys of src/chc_rental/dedup.py are
-- fields of `Planning`, as are the files of each recipient.
use chc_rental.Base.{
  ℕ, zero, suc, ◌+◌, String, Bool, true, false, ◌&&◌, ◌||◌, not, none, some, List, [], ◌∷◌, ◌++◌,
  map, ltb, ◌==◌, str_eq, if◌then◌else◌,
}
use chc_rental.Base.Table.{find_where, any_where, update_where}
use chc_rental.Base.Str.{codes}
use chc_rental.Text.{Text, lower, strip}
use chc_rental.Text.Equal.{text_eq}
use chc_rental.Models.{Search, active_searches, AllowlistEntry, Allowlist, is_allowlisted, Listing}
use chc_rental.Matching.{matches_search}
use chc_rental.Schedule.{Zones, is_profile_due}
use chc_rental.Journal.Seen.{Bank, active_seen_keys, last_sent_at}

pub record Planning : Type 0 where
  pub allowlist : Allowlist
  pub banks : ℕ → Bank
  pub seen_retention_days : ℕ
  pub zones : Zones
  pub now : ℕ
  pub dedup_key : Listing → String
  pub upgrade_seen_key : String → String

pub record PlannedPush : Type 0 where
  pub telegram_id : ℕ
  pub display_name : Text
  pub search_name : Text
  pub key : String
  pub listing : Listing

-- The fields of `PipelineResult` that planning sets, with its counts of people.
pub record PipelinePlan : Type 0 where
  pub planned : List PlannedPush
  pub no_results_for : List ℕ
  pub people_due : ℕ

abbrev bit : Bool → ℕ
bit true = 1
bit false = 0

-- `listing.source.strip().lower() == "zillow"`
unfoldable pub is_zillow : Listing → Bool
is_zillow l = text_eq (lower (strip (codes l.source))) (codes "zillow")

abbrev starts_with : Text → Text → Bool
starts_with [] t = true
starts_with (c ∷ w) [] = false
starts_with (c ∷ w) (d ∷ t) = c == d && starts_with w t

-- `word in text`
abbrev is_within : Text → Text → Bool
is_within w [] = starts_with w []
is_within w (c ∷ t) = starts_with w (c ∷ t) || is_within w t

-- `"google.com/maps/" not in listing.url.lower()`
unfoldable pub is_direct : Listing → Bool
is_direct l = not (is_within (codes "google.com/maps/") (lower (codes l.url)))

-- `_listing_preference(a) > _listing_preference(b)`
unfoldable pub is_preferred : Listing → Listing → Bool
is_preferred a b =
    ltb (bit (is_zillow b)) (bit (is_zillow a))
    || bit (is_zillow a) == bit (is_zillow b) && ltb (bit (is_direct b)) (bit (is_direct a))

abbrev pub has_key : Planning → String → Listing → Bool
has_key pl key l = str_eq (pl.dedup_key l) key

-- `unique` after one listing more.
unfoldable pub add_unique : Planning → Listing → List Listing → List Listing
add_unique pl l unique = elim (find_where (has_key pl (pl.dedup_key l)) unique) [
  | none ↦ unique ++ l ∷ []
  | some current ↦
      if is_preferred l current
      then update_where (has_key pl (pl.dedup_key l)) (λ _. l) unique
      else unique
]

unfoldable pub unique_from : Planning → List Listing → List Listing → List Listing
unique_from pl [] unique = unique
unique_from pl (l ∷ listings) unique = unique_from pl listings (add_unique pl l unique)

-- `_unique`
unfoldable pub unique_listings : Planning → List Listing → List Listing
unique_listings pl listings = unique_from pl listings []

abbrev pub is_listed : String → List String → Bool
is_listed key keys = any_where (λ k. str_eq k key) keys

abbrev pub push_of : Planning → AllowlistEntry → Search → Listing → PlannedPush
push_of pl person s l = record {
  telegram_id = person.telegram_id;
  display_name = person.display_name;
  search_name = s.name;
  key = pl.dedup_key l;
  listing = l;
}

abbrev pub keys_planned : List PlannedPush → List String
keys_planned items = map (λ i. i.key) items

-- Is a listing planned for a search: it matches, and its key is neither seen nor planned.
unfoldable pub is_wanted : Planning → List String → Search → List PlannedPush → Listing → Bool
is_wanted pl seen s items l =
    matches_search l s
    && not (is_listed (pl.dedup_key l) seen || is_listed (pl.dedup_key l) (keys_planned items))

-- The loop over the listings for one search, with the room that is left under its cap.
unfoldable pub plan_listings :
    Planning
    → AllowlistEntry
    → List String
    → Search
    → List Listing
    → ℕ
    → List PlannedPush
    → List PlannedPush
plan_listings pl person seen s [] room items = items
plan_listings pl person seen s (l ∷ unique) zero items = items
plan_listings pl person seen s (l ∷ unique) (suc room) items = elim (is_wanted pl seen s items l) [
  | true ↦ plan_listings pl person seen s unique room (items ++ push_of pl person s l ∷ [])
  | false ↦ plan_listings pl person seen s unique (suc room) items
]

unfoldable pub plan_for :
    Planning
    → AllowlistEntry
    → List String
    → List Listing
    → List Search
    → List PlannedPush
    → List PlannedPush
plan_for pl person seen unique [] items = items
plan_for pl person seen unique (s ∷ searches) items =
    plan_for pl person seen unique searches
      (plan_listings pl person seen s unique s.daily_cap items)

-- The keys that a person has seen, in today's form: `already_seen`.
unfoldable pub seen_by : Planning → AllowlistEntry → List String
seen_by pl person =
    map pl.upgrade_seen_key
      (active_seen_keys pl.seen_retention_days pl.now (pl.banks person.telegram_id))

-- `person_items`
unfoldable pub person_items : Planning → List Listing → AllowlistEntry → List PlannedPush
person_items pl unique person =
    plan_for pl person (seen_by pl person) unique (active_searches person.profile) []

unfoldable pub is_person_due : Planning → AllowlistEntry → Bool
is_person_due pl person =
    is_allowlisted pl.allowlist person.telegram_id
    && is_profile_due pl.zones person.profile pl.now (last_sent_at (pl.banks person.telegram_id))

abbrev pub with_items : Bool → AllowlistEntry → List PlannedPush → PipelinePlan → PipelinePlan
with_items allow_no_results person (i ∷ items) r = record {
  planned = r.planned ++ i ∷ items;
  no_results_for = r.no_results_for;
  people_due = r.people_due + 1;
}
with_items allow_no_results person [] r = record {
  planned = r.planned;
  no_results_for =
      if person.profile.notify_on_no_results && allow_no_results
      then r.no_results_for ++ person.telegram_id ∷ []
      else r.no_results_for;
  people_due = r.people_due + 1;
}

unfoldable pub plan_people :
    Planning → List Listing → Bool → List AllowlistEntry → PipelinePlan → PipelinePlan
plan_people pl unique allow_no_results [] r = r
plan_people pl unique allow_no_results (person ∷ people) r =
    plan_people pl unique allow_no_results people (
      if is_person_due pl person
      then with_items allow_no_results person (person_items pl unique person) r
      else r)

-- `plan_pushes`
unfoldable pub plan_pushes : Planning → List Listing → Bool → PipelinePlan
plan_pushes pl listings allow_no_results =
    plan_people pl (unique_listings pl listings) allow_no_results pl.allowlist.people
      (record { planned = []; no_results_for = []; people_due = 0 })
