-- ===== src/Pipeline/Planned.antt =====
-- What `plan_pushes` of src/chc_rental/pipeline.py plans.
use chc_rental.Base.{
  ℕ, zero, suc, ◌+◌, ◌≤◌, ◌≡◌, refl, sym, ◌∙◌, Bool, true, false, ◌&&◌, not, List, [], ◌∷◌, ◌++◌,
  map, length, length-append, arith, Bool-cases, inl, inr, ◌==◌, ==_iff, str_eq, eq_iff,
}
use chc_rental.Base.Table.{any_where, All, All-append}
use chc_rental.Base.Table.Distinct.{Distinct, Distinct-append, All-map}
use chc_rental.Models.{Search, active_searches, AllowlistEntry, is_allowlisted, Listing}
use chc_rental.Schedule.{is_profile_due}
use chc_rental.Journal.Seen.{last_sent_at}
use chc_rental.Matching.{matches_search}
use chc_rental.Pipeline.Plan.{
  seen_by, Planning, PlannedPush, PipelinePlan, is_listed, push_of, keys_planned, is_wanted,
  plan_listings, plan_for, person_items, is_person_due, with_items, plan_people, unique_listings,
  plan_pushes,
}

module _ {ℓ} {A : Type ℓ} where
  any_where-map {κ} :
      {B : Type κ} (q : B → Bool) (f : A → B) (xs : List A)
      → any_where q (map f xs) ≡ any_where (λ x. q (f x)) xs
  unfolding any_where
  any_where-map q f [] = refl
  any_where-map q f (x ∷ xs) = ground (arith, any_where-map q f xs)

  All-join {κ} : (P : A → Type κ) (xs ys : List A) → All P xs → All P ys → All P (xs ++ ys)
  All-join P [] ys h k = k
  All-join P (x ∷ xs) ys h k = (h.0, All-join P xs ys h.1 k)

  -- Each element of a list is one that a search of the list finds.
  pub All-found : (xs : List A) → All (λ x. (q : A → Bool) → q x ≡ true → any_where q xs ≡ true) xs
  unfolding any_where
  All-found [] = tt
  All-found (x ∷ xs) =
      (λ q h. ground arith, All-map xs (λ y f q h. ground (arith, f q h)) (All-found xs))

-- A push that the person may get: it has their id and the key of its listing, which they have not
-- seen, and an active search of theirs matches the listing.
abbrev pub is_planned : Planning → AllowlistEntry → PlannedPush → Bool
is_planned pl person i =
    i.telegram_id == person.telegram_id
    && str_eq i.key (pl.dedup_key i.listing)
    && not (is_listed i.key (seen_by pl person))
    && any_where (λ s. matches_search i.listing s) (active_searches person.profile)

abbrev pub same_key : PlannedPush → PlannedPush → Bool
same_key i j = str_eq i.key j.key

-- The caps of searches together.
unfoldable pub caps : List Search → ℕ
caps [] = 0
caps (s ∷ searches) = s.daily_cap + caps searches

module _ (pl : Planning) (person : AllowlistEntry) where
  abbrev Good : List PlannedPush → Type 0
  Good items = All (λ i. is_planned pl person i ≡ true) items × Distinct same_key items

  wanted-Good :
      (s : Search) (l : Listing) (items : List PlannedPush)
      → ((q : Search → Bool) → q s ≡ true → any_where q (active_searches person.profile) ≡ true)
      → is_wanted pl (seen_by pl person) s items l ≡ true
      → Good items
      → Good (items ++ push_of pl person s l ∷ [])
  unfolding is_wanted
  wanted-Good s l items found wanted good =
      let key = pl.dedup_key l in
      let matches : matches_search l s ≡ true = ground arith in
      let unseen : is_listed key (seen_by pl person) ≡ false = ground arith in
      let unplanned : is_listed key (keys_planned items) ≡ false = ground arith in
      let wants = found (matches_search l) matches in
      (
        All-append (λ i. is_planned pl person i ≡ true) items (push_of pl person s l) good.0
            (rw
              (
                unseen,
                wants,
                (==_iff person.telegram_id person.telegram_id).1 refl,
                (eq_iff key key).1 refl,
              )
              refl),
        Distinct-append same_key items (push_of pl person s l)
            (sym (any_where-map (λ k. str_eq k key) (λ (i : PlannedPush). i.key) items) ∙ unplanned)
            good.1,
      )

  plan_listings-Good :
      (s : Search) (unique : List Listing) (room : ℕ) (items : List PlannedPush)
      → ((q : Search → Bool) → q s ≡ true → any_where q (active_searches person.profile) ≡ true)
      → Good items
      → Good (plan_listings pl person (seen_by pl person) s unique room items)
  unfolding plan_listings
  plan_listings-Good s [] room items found good = good
  plan_listings-Good s (l ∷ unique) zero items found good = good
  plan_listings-Good s (l ∷ unique) (suc room) items found good =
      elim (Bool-cases (is_wanted pl (seen_by pl person) s items l)) [
        | inl yes_ ↦
            rw (plan_listings, yes_)
              (plan_listings-Good s unique room _ found (wanted-Good s l items found yes_ good))
        | inr no_ ↦
            rw (plan_listings, no_) (plan_listings-Good s unique (suc room) items found good)
      ]

  plan_listings-length :
      (s : Search) (unique : List Listing) (room : ℕ) (items : List PlannedPush)
      → length (plan_listings pl person (seen_by pl person) s unique room items)
        ≤ length items + room
  unfolding plan_listings
  plan_listings-length s [] room items = omega arith
  plan_listings-length s (l ∷ unique) zero items = omega arith
  plan_listings-length s (l ∷ unique) (suc room) items =
      elim (Bool-cases (is_wanted pl (seen_by pl person) s items l)) [
        | inl yes_ ↦
            rw (plan_listings, yes_)
              (omega (
                arith,
                length-append items (push_of pl person s l ∷ []),
                plan_listings-length s unique room (items ++ push_of pl person s l ∷ []),
              ))
        | inr no_ ↦ rw (plan_listings, no_) (plan_listings-length s unique (suc room) items)
      ]

  plan_for-Good :
      (unique : List Listing) (searches : List Search) (items : List PlannedPush)
      → All
          (λ s.
            (q : Search → Bool) → q s ≡ true → any_where q (active_searches person.profile) ≡ true)
          searches
      → Good items
      → Good (plan_for pl person (seen_by pl person) unique searches items)
  unfolding plan_for
  plan_for-Good unique [] items found good = good
  plan_for-Good unique (s ∷ searches) items found good =
      plan_for-Good unique searches _ found.1
        (plan_listings-Good s unique s.daily_cap items found.0 good)

  plan_for-length :
      (unique : List Listing) (searches : List Search) (items : List PlannedPush)
      → length (plan_for pl person (seen_by pl person) unique searches items)
        ≤ length items + caps searches
  unfolding plan_for caps
  plan_for-length unique [] items = omega arith
  plan_for-length unique (s ∷ searches) items = omega (
    arith,
    plan_listings-length s unique s.daily_cap items,
    plan_for-length unique searches
        (plan_listings pl person (seen_by pl person) s unique s.daily_cap items),
  )

  -- For a person no key is planned twice, and no more listings than the caps of their active searches
  -- allow together.
  pub person_items-Capped :
      (unique : List Listing)
      → Distinct same_key (person_items pl unique person)
        × (length (person_items pl unique person) ≤ caps (active_searches person.profile))
  unfolding person_items
  person_items-Capped unique = (
    (plan_for-Good unique _ [] (All-found (active_searches person.profile)) (tt, tt)).1,
    omega (arith, plan_for-length unique (active_searches person.profile) []),
  )

  items-IsPlanned :
      (unique : List Listing)
      → All (λ i. is_planned pl person i ≡ true) (person_items pl unique person)
  unfolding person_items
  items-IsPlanned unique =
      (plan_for-Good unique _ [] (All-found (active_searches person.profile)) (tt, tt)).0

-- The push is for this person, who is active on the allowlist and due since the last message.
abbrev pub is_for_person : Planning → PlannedPush → AllowlistEntry → Bool
is_for_person pl i person =
    is_allowlisted pl.allowlist person.telegram_id
    && is_profile_due pl.zones person.profile pl.now (last_sent_at (pl.banks person.telegram_id))
    && is_planned pl person i

abbrev pub is_for_someone : Planning → PlannedPush → Bool
is_for_someone pl i = any_where (is_for_person pl i) pl.allowlist.people

due_and_planned :
    (pl : Planning) (i : PlannedPush) (person : AllowlistEntry)
    → is_person_due pl person ≡ true
    → is_planned pl person i ≡ true
    → is_for_person pl i person ≡ true
unfolding is_person_due
due_and_planned pl i person due planned = ground arith

module _ (pl : Planning) (unique : List Listing) (allow_no_results : Bool) where
  abbrev Sound : PipelinePlan → Type 0
  Sound r = All (λ i. is_for_someone pl i ≡ true) r.planned

  with_items-Sound :
      (person : AllowlistEntry) (items : List PlannedPush) (r : PipelinePlan)
      → All (λ i. is_for_someone pl i ≡ true) items
      → Sound r
      → Sound (with_items allow_no_results person items r)
  with_items-Sound person [] r h k = k
  with_items-Sound person (i ∷ items) r h k =
      All-join (λ i. is_for_someone pl i ≡ true) r.planned (i ∷ items) k h

  plan_people-Sound :
      (people : List AllowlistEntry) (r : PipelinePlan)
      → All
          (λ person.
            (q : AllowlistEntry → Bool) → q person ≡ true → any_where q pl.allowlist.people ≡ true)
          people
      → Sound r
      → Sound (plan_people pl unique allow_no_results people r)
  unfolding plan_people
  plan_people-Sound [] r found k = k
  plan_people-Sound (person ∷ people) r found k = elim (Bool-cases (is_person_due pl person)) [
    | inr not_due ↦ rw (plan_people, not_due) (plan_people-Sound people r found.1 k)
    | inl due ↦
        rw (plan_people, due)
          (plan_people-Sound people _ found.1 (
            with_items-Sound person (person_items pl unique person) r
              (All-map (person_items pl unique person)
                (λ i planned.
                  found.0 (is_for_person pl i) (due_and_planned pl i person due planned))
                (items-IsPlanned pl person unique))
              k))
  ]

-- Every push that is planned is for a person of the allowlist who is active there and due: it has the
-- id of the person and the key of its listing, which the person has not seen, and an active search of
-- the person matches the listing.
pub plan_pushes-Sound :
    (pl : Planning) (listings : List Listing) (allow_no_results : Bool)
    → All (λ i. is_for_someone pl i ≡ true) (plan_pushes pl listings allow_no_results).planned
unfolding plan_pushes
plan_pushes-Sound pl listings allow_no_results =
    plan_people-Sound pl (unique_listings pl listings) allow_no_results pl.allowlist.people _
      (All-found pl.allowlist.people) tt
