-- ===== src/Planner/Cost.antt =====
-- What a plan costs: one query for each city and state, and what its type filter leaves out.
use chc_rental.Base.{
  ◌≡◌, ◌≢◌, refl, sym, ◌∙◌, Bool, true, false, ◌&&◌, List, [], ◌∷◌, map, arith, Bool-cases,
  Option-cases, inl, inr,
}
use chc_rental.Base.Table.{any_where, any_where-rows_where, All}
use chc_rental.Base.Table.Distinct.{Distinct}
use chc_rental.Text.{Text, lower}
use chc_rental.Text.Equal.{text_eq}
use chc_rental.Models.{Group, Search, active_searches, AllowlistEntry, Allowlist, active_people}
use chc_rental.Matching.{group_eq}
use chc_rental.Planner.{
  SourceQuery, zillow_groups, wanted, zillow_types, Bucket, envelope_query, city_key_of,
  is_bucket_of, add_search, given_state, Grouped, group_search, group_searches, group_people,
  group_by_city, plan_envelope_queries, plan_queries,
}
use chc_rental.Planner.Covers.{IsOwn, search-Own}
use chc_rental.Planner.Envelope.{has_type, is_filterable, has_type-wanted}

abbrev same_key : Bucket → Bucket → Bool
same_key b c = text_eq b.city_key c.city_key && text_eq b.state_key c.state_key

-- Two queries are for one city, letter case aside, and one state.
abbrev pub same_place : SourceQuery → SourceQuery → Bool
same_place q r = text_eq (lower q.city) (lower r.city) && text_eq q.state r.state

not_among :
    (s : Search) (t : Text) (b : Bucket) (buckets : List Bucket)
    → is_bucket_of (city_key_of s) t b ≡ false
    → any_where (same_key b) buckets ≡ false
    → any_where (same_key b) (add_search s t buckets) ≡ false
unfolding add_search any_where
not_among s t b [] other h = ground arith
not_among s t b (c ∷ buckets) other h = ground (arith, not_among s t b buckets other)

add_search-Distinct :
    (s : Search) (t : Text) (buckets : List Bucket)
    → Distinct same_key buckets
    → Distinct same_key (add_search s t buckets)
unfolding add_search any_where
add_search-Distinct s t [] h = (refl, tt)
add_search-Distinct s t (b ∷ buckets) h = elim (Bool-cases (is_bucket_of (city_key_of s) t b)) [
  | inl here ↦ rw here h
  | inr other ↦ rw other (not_among s t b buckets other h.0, add_search-Distinct s t buckets h.1)
]

-- What a turn of the loops keeps.
abbrev IsPlan : Grouped → Type 0
IsPlan g = Distinct same_key g.0 × All IsOwn g.0

search-IsPlan :
    (person : AllowlistEntry) (u : Search) (g : Grouped)
    → IsPlan g
    → IsPlan (group_search person u g)
search-IsPlan person u g h = (
  (elim (Option-cases (given_state u)) [
    | inl e ↦ unfold group_search in rw (e, group_search) h.0
    | inr (t, e) ↦ unfold group_search in rw (e, group_search) (add_search-Distinct u t g.0 h.0)
  ]),
  search-Own person u g h.1,
)

searches-IsPlan :
    (person : AllowlistEntry) (searches : List Search) (g : Grouped)
    → IsPlan g
    → IsPlan (group_searches person searches g)
unfolding group_searches
searches-IsPlan person [] g h = h
searches-IsPlan person (u ∷ searches) g h =
    searches-IsPlan person searches (group_search person u g) (search-IsPlan person u g h)

people-IsPlan :
    (people : List AllowlistEntry) (g : Grouped) → IsPlan g → IsPlan (group_people people g)
unfolding group_people
people-IsPlan [] g h = h
people-IsPlan (p ∷ people) g h =
    people-IsPlan people _ (searches-IsPlan p (active_searches p.profile) g h)

other_place :
    (b : Bucket) (buckets : List Bucket)
    → IsOwn b
    → All IsOwn buckets
    → any_where (same_key b) buckets ≡ false
    → any_where (same_place (envelope_query b)) (map envelope_query buckets) ≡ false
unfolding any_where envelope_query
other_place b [] own owns h = refl
other_place b (c ∷ buckets) own owns h =
    let rest = other_place b buckets own owns.1 (ground arith) in
    let apart : same_key b c ≡ false = ground arith in rw (sym own, sym (owns.0), apart) rest

place-Distinct :
    (buckets : List Bucket)
    → Distinct same_key buckets
    → All IsOwn buckets
    → Distinct same_place (map envelope_query buckets)
place-Distinct [] h own = tt
place-Distinct (b ∷ buckets) h own =
    (other_place b buckets own.0 own.1 h.0, place-Distinct buckets h.1 own.1)

-- One paid query for each place: no two queries of the plan are for the same city, letter case and
-- white space around it aside, and the same state, however many people watch it.
pub plan_once : (a : Allowlist) → Distinct same_place (plan_queries a).0
unfolding plan_queries plan_envelope_queries group_by_city
plan_once a =
    let plan = people-IsPlan (active_people a) ([], []) (tt, tt) in place-Distinct _ plan.0 plan.1

not_other :
    (searches : List Search)
    → any_where (λ h. group_eq h Group.other) (zillow_types searches) ≡ false
unfolding zillow_types
not_other searches =
    any_where-rows_where (λ h. group_eq h Group.other) (wanted searches) zillow_groups
    ∙ (unfold any_where in ground arith)

no_types : (q : Group → Bool) (types : List Group) → types ≡ [] → any_where q types ≡ true → ⊥
unfolding any_where
no_types q [] e h = ground arith
no_types q (g ∷ types) e h = cc

-- As soon as one search of a bucket wants a type that Zillow can filter by, the query has a type
-- filter, and no listing of the group `other` passes it, even if a search of the bucket wants one.
pub other_left_out :
    (b : Bucket) (g : Group)
    → wanted (b.first ∷ b.others) g ≡ true
    → is_filterable g ≡ true
    → ((envelope_query b).property_types ≢ []) × (has_type Group.other (envelope_query b) ≡ false)
unfolding envelope_query has_type
other_left_out b g w f =
    let searches = b.first ∷ b.others in
    (
      λ e. no_types (λ h. group_eq h g) (zillow_types searches) e (has_type-wanted searches g w f),
      not_other searches,
    )
