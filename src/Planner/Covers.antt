-- ===== src/Planner/Covers.antt =====
-- Which searches the plan serves.
use mathlib.Core.Path.{subst}
use mathlib.Core.List.{Memᴰ}
use mathlib.Core.List.Memᴰ
use chc_rental.Base.{
  ◌≡◌, refl, ◌∙◌, Bool, true, ◌&&◌, some, List, [], ◌∷◌, ◌++◌, map, arith, Bool-cases, Option-cases,
  if-keeps, inl, inr,
}
use chc_rental.Base.Table.{any_where, All}
use chc_rental.Base.Table.Distinct.{any_where-append}
use chc_rental.Text.{Text, lower, strip}
use chc_rental.Text.Equal.{text_eq, text_eq_refl}
use chc_rental.Models.{
  Group, property_type_group, Search, Listing, active_searches, AllowlistEntry, Allowlist,
  active_people,
}
use chc_rental.Matching.{has_group, matches_search}
use chc_rental.Planner.{
  SourceQuery, wanted, Bucket, envelope_query, city_key_of, is_bucket_of, add_search, given_state,
  Grouped, group_search, group_searches, group_people, group_by_city, plan_envelope_queries,
  plan_queries,
}
use chc_rental.Planner.Envelope.{
  in_bounds, with_search, in_bounds-grows, in_bounds-new, in_bounds-one, has_type, is_filterable,
  has_type-wanted,
}

-- The key of a bucket is what it shows as its city, in lower case.
abbrev pub IsOwn : Bucket → Type 0
IsOwn b = b.city_key ≡ lower b.display_city

add_search-Own :
    (s : Search) (t : Text) (buckets : List Bucket)
    → All IsOwn buckets
    → All IsOwn (add_search s t buckets)
unfolding add_search
add_search-Own s t [] h = (refl, tt)
add_search-Own s t (b ∷ buckets) h =
    if-keeps (All IsOwn) (is_bucket_of (city_key_of s) t b) _ _ (h.0, h.1)
      (h.0, add_search-Own s t buckets h.1)

pub search-Own :
    (person : AllowlistEntry) (u : Search) (g : Grouped)
    → All IsOwn g.0
    → All IsOwn (group_search person u g).0
unfolding group_search
search-Own person u g h = elim (Option-cases (given_state u)) [
  | inl e ↦ rw (e, group_search) h
  | inr (t, e) ↦ rw (e, group_search) (add_search-Own u t g.0 h)
]

pub searches-Own :
    (person : AllowlistEntry) (searches : List Search) (g : Grouped)
    → All IsOwn g.0
    → All IsOwn (group_searches person searches g).0
unfolding group_searches
searches-Own person [] g h = h
searches-Own person (u ∷ searches) g h =
    searches-Own person searches (group_search person u g) (search-Own person u g h)

module _ (l : Listing) (s : Search) (state : Text) (match_ : matches_search l s ≡ true) where
  -- The bucket is that of the search, and its query lets the listing through.
  unfoldable serves : Bucket → Bool
  serves b =
      text_eq (lower b.display_city) (city_key_of s)
      && text_eq b.state_key state
      && (in_bounds l (envelope_query b)
          && wanted (b.first ∷ b.others) (property_type_group l.property_type))

  wanted-grows :
      (u : Search) (b : Bucket) (g : Group)
      → wanted (b.first ∷ b.others) g ≡ true
      → wanted (b.first ∷ b.others ++ u ∷ []) g ≡ true
  unfolding wanted
  wanted-grows u b g h =
      any_where-append (λ s. has_group g s.property_types) (b.first ∷ b.others) u ∙ rw h refl

  wanted-new :
      (b : Bucket)
      → wanted (b.first ∷ b.others ++ s ∷ []) (property_type_group l.property_type) ≡ true
  unfolding wanted matches_search
  wanted-new b =
      let g = property_type_group l.property_type in
      any_where-append (λ s. has_group g s.property_types) (b.first ∷ b.others) s ∙ ground arith

  wanted-one : wanted (s ∷ []) (property_type_group l.property_type) ≡ true
  unfolding wanted matches_search any_where
  wanted-one = ground arith

  serves-grows : (u : Search) (b : Bucket) → serves b ≡ true → serves (with_search u b) ≡ true
  unfolding serves
  serves-grows u b h =
      ground (arith, in_bounds-grows l u b, wanted-grows u b (property_type_group l.property_type))

  serves-new :
      (b : Bucket)
      → IsOwn b
      → is_bucket_of (city_key_of s) state b ≡ true
      → serves (with_search s b) ≡ true
  unfolding serves
  serves-new b own at_b =
      let key : text_eq b.city_key (city_key_of s) ≡ true = ground arith in
      let shown : text_eq (lower b.display_city) (city_key_of s) ≡ true = rw own at key in
      ground (arith, in_bounds-new l s b match_, wanted-new b)

  served-grows :
      (u : Search) (t : Text) (buckets : List Bucket)
      → any_where serves buckets ≡ true
      → any_where serves (add_search u t buckets) ≡ true
  unfolding add_search any_where
  served-grows u t [] h = cc
  served-grows u t (b ∷ buckets) h = ground (arith, serves-grows u b, served-grows u t buckets)

  served-new :
      (buckets : List Bucket)
      → All IsOwn buckets
      → any_where serves (add_search s state buckets) ≡ true
  unfolding add_search any_where
  served-new [] h =
      unfold serves in
      ground (
        arith,
        text_eq_refl (city_key_of s),
        text_eq_refl state,
        in_bounds-one l s (city_key_of s) state (strip s.city) match_,
        wanted-one,
      )
  served-new (b ∷ buckets) h =
      let rest = served-new buckets h.1 in
      elim (Bool-cases (is_bucket_of (city_key_of s) state b)) [
        | inl at_b ↦ rw at_b (rw (serves-new b h.0 at_b) refl)
        | inr other ↦ rw other (ground arith)
      ]

  -- Neither a search nor a person that comes later takes it away.
  search-keeps :
      (person : AllowlistEntry) (u : Search) (g : Grouped)
      → any_where serves g.0 ≡ true
      → any_where serves (group_search person u g).0 ≡ true
  unfolding group_search
  search-keeps person u g h = elim (Option-cases (given_state u)) [
    | inl e ↦ rw (e, group_search) h
    | inr (t, e) ↦ rw (e, group_search) (served-grows u t g.0 h)
  ]

  searches-keep :
      (person : AllowlistEntry) (searches : List Search) (g : Grouped)
      → any_where serves g.0 ≡ true
      → any_where serves (group_searches person searches g).0 ≡ true
  unfolding group_searches
  searches-keep person [] g h = h
  searches-keep person (u ∷ searches) g h =
      searches-keep person searches (group_search person u g) (search-keeps person u g h)

  people-keep :
      (people : List AllowlistEntry) (g : Grouped)
      → any_where serves g.0 ≡ true
      → any_where serves (group_people people g).0 ≡ true
  unfolding group_people
  people-keep [] g h = h
  people-keep (p ∷ people) g h =
      people-keep people _ (searches-keep p (active_searches p.profile) g h)

  module _ (given : given_state s ≡ some state) where
    searches-serve :
        (person : AllowlistEntry) (searches : List Search) (g : Grouped)
        → Memᴰ s searches
        → All IsOwn g.0
        → any_where serves (group_searches person searches g).0 ≡ true
    unfolding group_searches
    searches-serve person [] g m own = absurd (Memᴰ.not-nil m)
    searches-serve person (u ∷ searches) g (Memᴰ.head e) own =
        searches-keep person searches (group_search person u g) (
          subst (λ v. any_where serves (group_search person v g).0 ≡ true) e
            (unfold group_search in rw (given, group_search) (served-new g.0 own)))
    searches-serve person (u ∷ searches) g (Memᴰ.tail m) own =
        searches-serve person searches (group_search person u g) m (search-Own person u g own)

    people-serve :
        (person : AllowlistEntry) (people : List AllowlistEntry) (g : Grouped)
        → Memᴰ person people
        → Memᴰ s (active_searches person.profile)
        → All IsOwn g.0
        → any_where serves (group_people people g).0 ≡ true
    unfolding group_people
    people-serve person [] g m has own = absurd (Memᴰ.not-nil m)
    people-serve person (p ∷ people) g (Memᴰ.head e) has own = people-keep people _ (
        subst (λ r. any_where serves (group_searches r (active_searches r.profile) g).0 ≡ true) e
          (searches-serve person (active_searches person.profile) g has own))
    people-serve person (p ∷ people) g (Memᴰ.tail m) has own =
        people-serve person people _ m has (searches-Own p (active_searches p.profile) g own)

-- The query is of the city and state of the search, and lets the listing through.
unfoldable pub lets_through : Listing → Search → Text → SourceQuery → Bool
lets_through l s state q =
    text_eq (lower q.city) (city_key_of s)
    && text_eq q.state state
    && (in_bounds l q && has_type (property_type_group l.property_type) q)

serves_through :
    (l : Listing) (s : Search) (state : Text) (m : matches_search l s ≡ true) (b : Bucket)
    → is_filterable (property_type_group l.property_type) ≡ true
    → serves l s state m b ≡ true
    → lets_through l s state (envelope_query b) ≡ true
unfolding serves lets_through has_type envelope_query
serves_through l s state m b f h =
    ground (arith, has_type-wanted (b.first ∷ b.others) (property_type_group l.property_type))

served_query :
    (l : Listing) (s : Search) (state : Text) (m : matches_search l s ≡ true)
    (buckets : List Bucket)
    → is_filterable (property_type_group l.property_type) ≡ true
    → any_where (serves l s state m) buckets ≡ true
    → any_where (lets_through l s state) (map envelope_query buckets) ≡ true
unfolding any_where
served_query l s state m [] f h = h
served_query l s state m (b ∷ buckets) f h = elim (Bool-cases (serves l s state m b)) [
  | inl here ↦ rw (serves_through l s state m b f here) refl
  | inr other ↦
      let rest = served_query l s state m buckets f (ground arith) in rw rest (ground arith)
]

-- The plan is a superset: for every active search of an active person that names a state, it has a
-- query of the search's city and state whose filters let through every listing that the search
-- matches, unless Zillow cannot filter by the listing's type.
pub plan_covers :
    (a : Allowlist) (person : AllowlistEntry) (s : Search) (state : Text) (l : Listing)
    → Memᴰ person (active_people a)
    → Memᴰ s (active_searches person.profile)
    → given_state s ≡ some state
    → matches_search l s ≡ true
    → is_filterable (property_type_group l.property_type) ≡ true
    → any_where (lets_through l s state) (plan_queries a).0 ≡ true
unfolding plan_queries plan_envelope_queries group_by_city
plan_covers a person s state l at_person at_search given m f =
    served_query l s state m (group_people (active_people a) ([], [])).0 f
      (people-serve l s state m given person (active_people a) ([], []) at_person at_search tt)
