-- ===== src/Planner.antt =====
-- src/chc_rental/sources/planner.py: the queries of the daily path, one for each city and state that
-- some active search of an active person watches.
pub mod Incremental
pub mod Scopes
pub mod Shared
pub mod Envelope
pub mod Covers
pub mod Cost
pub mod Tests
use chc_rental.Base.{
  ℕ, min, max, Bool, true, false, ◌&&◌, ◌||◌, not, Option, none, some, List, [], ◌∷◌, ◌++◌, map,
  if◌then◌else◌,
}
use chc_rental.Base.Table.{rows_where, any_where}
use chc_rental.Text.{Text, lower, strip}
use chc_rental.Text.Equal.{text_eq}
use chc_rental.Models.{Group, Search, active_searches, AllowlistEntry, Allowlist, active_people}
use chc_rental.Matching.{has_group}

-- src/chc_rental/sources/base.py. The planner gives every field a value.
pub record SourceQuery : Type 0 where
  pub city : Text
  pub state : Text
  pub price_min : ℕ
  pub price_max : ℕ
  pub beds_min : ℕ
  pub beds_max : ℕ
  pub baths_min : ℕ
  pub property_types : List Group

-- `_ZILLOW_FILTERABLE_GROUPS`, in the order that `sorted` gives them.
abbrev pub zillow_groups : List Group
zillow_groups =
    Group.apartment ∷ Group.condo ∷ Group.land ∷ Group.manufactured ∷ Group.multi_family
    ∷ Group.single_family ∷ Group.townhouse ∷ []

-- Some search of the list has a type of the group.
unfoldable pub wanted : List Search → Group → Bool
wanted searches g = any_where (λ s. has_group g s.property_types) searches

-- `sorted(set().union(*(_zillow_types(s) for s in searches)))`
unfoldable pub zillow_types : List Search → List Group
zillow_types searches = rows_where (wanted searches) zillow_groups

-- `min(f(s) for s in searches)` and `max(…)` over a list with a first search.
unfoldable pub min_of : (Search → ℕ) → Search → List Search → ℕ
min_of f s [] = f s
min_of f s (t ∷ ts) = min (f s) (min_of f t ts)

unfoldable pub max_of : (Search → ℕ) → Search → List Search → ℕ
max_of f s [] = f s
max_of f s (t ∷ ts) = max (f s) (max_of f t ts)

-- The searches of one city and state: the city as it is shown, the first search and the others.
pub record Bucket : Type 0 where
  pub city_key : Text
  pub state_key : Text
  pub display_city : Text
  pub first : Search
  pub others : List Search

unfoldable pub envelope_query : Bucket → SourceQuery
envelope_query b = record {
  city = b.display_city;
  state = b.state_key;
  price_min = min_of (λ s. s.price_min) b.first b.others;
  price_max = max_of (λ s. s.price_max) b.first b.others;
  beds_min = min_of (λ s. s.bed_min) b.first b.others;
  beds_max = max_of (λ s. s.bed_max) b.first b.others;
  baths_min = min_of (λ s. s.bath_min) b.first b.others;
  property_types = zillow_types (b.first ∷ b.others);
}

-- `key = (search.city.strip().lower(), search.state)`
abbrev pub city_key_of : Search → Text
city_key_of s = lower (strip s.city)

abbrev pub is_bucket_of : Text → Text → Bucket → Bool
is_bucket_of city state b = text_eq b.city_key city && text_eq b.state_key state

-- `grouped.setdefault(key, …)` and `bucket.append(search)`
unfoldable pub add_search : Search → Text → List Bucket → List Bucket
add_search s state [] =
    record {
      city_key = city_key_of s;
      state_key = state;
      display_city = strip s.city;
      first = s;
      others = [];
    }
    ∷ []
add_search s state (b ∷ buckets) =
    let rest = add_search s state buckets in
    if is_bucket_of (city_key_of s) state b
    then record b { others = b.others ++ s ∷ [] } ∷ buckets
    else b ∷ rest

-- The warning about a search that cannot be planned, as the search and the person that it names.
pub record Warning : Type 0 where
  pub search_name : Text
  pub display_name : Text
  pub telegram_id : ℕ

-- `search.state`, where it is truthy
abbrev pub given_state : Search → Option Text
given_state s = elim s.state [ none ↦ none | some [] ↦ none | some (c ∷ t) ↦ some (c ∷ t) ]

abbrev pub Grouped : Type 0
Grouped = List Bucket × List Warning

-- One turn of the inner loop.
unfoldable pub group_search : AllowlistEntry → Search → Grouped → Grouped
group_search person s (buckets, warnings) = elim (given_state s) [
  | none ↦ (
    buckets,
    warnings
        ++ record {
          search_name = s.name;
          display_name = person.display_name;
          telegram_id = person.telegram_id;
        }
          ∷ [],
  )
  | some state ↦ (add_search s state buckets, warnings)
]

unfoldable pub group_searches : AllowlistEntry → List Search → Grouped → Grouped
group_searches person [] g = g
group_searches person (s ∷ searches) g = group_searches person searches (group_search person s g)

unfoldable pub group_people : List AllowlistEntry → Grouped → Grouped
group_people [] g = g
group_people (p ∷ people) g = group_people people (group_searches p (active_searches p.profile) g)

unfoldable pub group_by_city : Allowlist → Grouped
group_by_city a = group_people (active_people a) ([], [])

unfoldable pub plan_envelope_queries : Allowlist → List SourceQuery × List Warning
plan_envelope_queries a =
    let (buckets, warnings) = group_by_city a in (map envelope_query buckets, warnings)

unfoldable pub plan_queries : Allowlist → List SourceQuery × List Warning
plan_queries a = plan_envelope_queries a
