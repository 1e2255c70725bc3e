-- ===== src/Matching.antt =====
-- src/chc_rental/matching.py: does a listing match a saved search.
use chc_rental.Base.{ℕ, Bool, true, false, ◌&&◌, ◌||◌, not, Option, none, some, List, [], ◌∷◌, leb}
use chc_rental.Text.{Text, normalize_text}
use chc_rental.Text.Equal.{text_eq}
use chc_rental.Models.{PropertyType, Group, property_type_group, Search, Listing}

abbrev pub group_eq : Group → Group → Bool
group_eq Group.apartment Group.apartment = true
group_eq Group.condo Group.condo = true
group_eq Group.townhouse Group.townhouse = true
group_eq Group.single_family Group.single_family = true
group_eq Group.multi_family Group.multi_family = true
group_eq Group.manufactured Group.manufactured = true
group_eq Group.land Group.land = true
group_eq Group.other Group.other = true
group_eq _ _ = false

-- `text in texts`
unfoldable pub text_in : Text → List Text → Bool
text_in t [] = false
text_in t (s ∷ texts) = text_eq t s || text_in t texts

-- `set(xs).issubset(ys)`
unfoldable pub is_subset : List Text → List Text → Bool
is_subset [] ys = true
is_subset (x ∷ xs) ys = text_in x ys && is_subset xs ys

-- `set(xs) & set(ys)` is not empty.
unfoldable pub overlaps : List Text → List Text → Bool
overlaps [] ys = false
overlaps (x ∷ xs) ys = text_in x ys || overlaps xs ys

-- The group is one of the groups of the types: `in search_groups`.
unfoldable pub has_group : Group → List PropertyType → Bool
has_group g [] = false
has_group g (t ∷ types) = group_eq (property_type_group t) g || has_group g types

abbrev pub same_text : Option Text → Option Text → Bool
same_text s t = text_eq (normalize_text s) (normalize_text t)

unfoldable pub city_matches : Listing → Search → Bool
city_matches l s = same_text (some l.city) (some s.city)

abbrev states_match : Listing → Option Text → Bool
states_match l none = true
states_match l (some state) = same_text l.state (some state)

-- `listing.district or listing.city`: a district that is missing or empty gives way to the city.
abbrev district_or_city : Option Text → Text → Text
district_or_city none city = city
district_or_city (some []) city = city
district_or_city (some (c ∷ d)) city = c ∷ d

abbrev districts_match : Listing → Option Text → Bool
districts_match l none = true
districts_match l (some district) =
    same_text (some (district_or_city l.district l.city)) (some district)

unfoldable pub state_matches : Listing → Search → Bool
state_matches l s = states_match l s.state

unfoldable pub district_matches : Listing → Search → Bool
district_matches l s = districts_match l s.district

abbrev within : ℕ → ℕ → ℕ → Bool
within low x high = leb low x && leb x high

abbrev at_least : Option ℕ → ℕ → Bool
at_least none x = true
at_least (some low) x = leb low x

abbrev at_most : Option ℕ → ℕ → Bool
at_most none x = true
at_most (some high) x = leb x high

unfoldable pub sqft_matches : Listing → Search → Bool
sqft_matches l s = elim l.sqft [
  | none ↦ true
  | some x ↦ at_least s.sqft_min x && at_most s.sqft_max x
]

unfoldable pub features_match : Listing → Search → Bool
features_match l s =
    is_subset s.required_features l.features && not (overlaps s.excluded_features l.features)

-- Every `return False` is a factor here, in the order of the source.
unfoldable pub matches_search : Listing → Search → Bool
matches_search l s =
    city_matches l s
    && state_matches l s
    && district_matches l s
    && within s.price_min l.price s.price_max
    && has_group (property_type_group l.property_type) s.property_types
    && within s.bed_min l.beds s.bed_max
    && within s.bath_min l.baths s.bath_max
    && sqft_matches l s
    && features_match l s
