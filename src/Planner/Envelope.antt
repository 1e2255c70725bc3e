-- ===== src/Planner/Envelope.antt =====
-- The filter envelope of a bucket of searches.
use chc_rental.Base.{ℕ, ◌≤◌, ◌≡◌, ◌∙◌, Bool, true, false, ◌&&◌, List, [], ◌∷◌, ◌++◌, arith, leb}
use chc_rental.Base.Table.{any_where, any_where-rows_where}
use chc_rental.Text.{Text}
use chc_rental.Models.{Group, Search, Listing}
use chc_rental.Matching.{group_eq, matches_search}
use chc_rental.Planner.{
  SourceQuery, zillow_groups, wanted, zillow_types, min_of, max_of, Bucket, envelope_query,
}

-- The listing passes the filters of the query, its group aside.
unfoldable pub in_bounds : Listing → SourceQuery → Bool
in_bounds l q =
    leb q.price_min l.price
    && leb l.price q.price_max
    && leb q.beds_min l.beds
    && leb l.beds q.beds_max
    && leb q.baths_min l.baths

-- The group of the listing is one of the types that the query asks for.
unfoldable pub has_type : Group → SourceQuery → Bool
has_type g q = any_where (λ h. group_eq h g) q.property_types

abbrev pub is_filterable : Group → Bool
is_filterable Group.other = false
is_filterable _ = true

-- The query with one more search in the bucket.
abbrev pub with_search : Search → Bucket → Bucket
with_search s b = record b { others = b.others ++ s ∷ [] }

module _ (f : Search → ℕ) (u : Search) where
  min_of-append-le : (s : Search) (ts : List Search) → min_of f s (ts ++ u ∷ []) ≤ min_of f s ts
  unfolding min_of
  min_of-append-le s [] = ground arith
  min_of-append-le s (t ∷ ts) = ground (arith, min_of-append-le t ts)

  min_of-append-new : (s : Search) (ts : List Search) → min_of f s (ts ++ u ∷ []) ≤ f u
  unfolding min_of
  min_of-append-new s [] = ground arith
  min_of-append-new s (t ∷ ts) = ground (arith, min_of-append-new t ts)

  max_of-append-le : (s : Search) (ts : List Search) → max_of f s ts ≤ max_of f s (ts ++ u ∷ [])
  unfolding max_of
  max_of-append-le s [] = ground arith
  max_of-append-le s (t ∷ ts) = ground (arith, max_of-append-le t ts)

  max_of-append-new : (s : Search) (ts : List Search) → f u ≤ max_of f s (ts ++ u ∷ [])
  unfolding max_of
  max_of-append-new s [] = ground arith
  max_of-append-new s (t ∷ ts) = ground (arith, max_of-append-new t ts)

pub in_bounds-grows :
    (l : Listing) (s : Search) (b : Bucket)
    → in_bounds l (envelope_query b) ≡ true
    → in_bounds l (envelope_query (with_search s b)) ≡ true
unfolding in_bounds envelope_query
in_bounds-grows l s b h =
    let p = min_of-append-le (λ s. s.price_min) s b.first b.others in
    let q = max_of-append-le (λ s. s.price_max) s b.first b.others in
    let r = min_of-append-le (λ s. s.bed_min) s b.first b.others in
    let t = max_of-append-le (λ s. s.bed_max) s b.first b.others in
    let u = min_of-append-le (λ s. s.bath_min) s b.first b.others in ground arith

pub in_bounds-new :
    (l : Listing) (s : Search) (b : Bucket)
    → matches_search l s ≡ true
    → in_bounds l (envelope_query (with_search s b)) ≡ true
unfolding in_bounds envelope_query matches_search
in_bounds-new l s b h =
    let p = min_of-append-new (λ s. s.price_min) s b.first b.others in
    let q = max_of-append-new (λ s. s.price_max) s b.first b.others in
    let r = min_of-append-new (λ s. s.bed_min) s b.first b.others in
    let t = max_of-append-new (λ s. s.bed_max) s b.first b.others in
    let u = min_of-append-new (λ s. s.bath_min) s b.first b.others in ground arith

pub in_bounds-one :
    (l : Listing) (s : Search) (city state display : Text)
    → matches_search l s ≡ true
    → in_bounds l (
        envelope_query (record {
          city_key = city;
          state_key = state;
          display_city = display;
          first = s;
          others = [];
        }))
      ≡ true
unfolding in_bounds envelope_query matches_search min_of max_of
in_bounds-one l s city state display h = ground arith

is_wanted :
    (searches : List Search) (g : Group)
    → wanted searches g ≡ true
    → is_filterable g ≡ true
    → any_where (λ h. wanted searches h && group_eq h g) zillow_groups ≡ true
unfolding any_where
is_wanted searches Group.apartment w f = ground arith
is_wanted searches Group.condo w f = ground arith
is_wanted searches Group.townhouse w f = ground arith
is_wanted searches Group.single_family w f = ground arith
is_wanted searches Group.multi_family w f = ground arith
is_wanted searches Group.manufactured w f = ground arith
is_wanted searches Group.land w f = ground arith
is_wanted searches Group.other w f = absurd (ground arith)

-- A group that a search wants is asked for, if Zillow can filter by it.
pub has_type-wanted :
    (searches : List Search) (g : Group)
    → wanted searches g ≡ true
    → is_filterable g ≡ true
    → any_where (λ h. group_eq h g) (zillow_types searches) ≡ true
unfolding zillow_types
has_type-wanted searches g w filterable =
    any_where-rows_where (λ h. group_eq h g) (wanted searches) zillow_groups
    ∙ is_wanted searches g w filterable
