-- ===== src/Quota/Bounds.antt =====
-- What the budgets of a day allow.
use chc_rental.Base.{
  ℕ, ◌+◌, ◌-◌, ◌≤◌, String, ◌≡◌, refl, Bool, true, false, [], ◌∷◌, arith, leb, ◌==◌, str_eq, eq_iff,
  if◌then◌else◌, Bool-cases, inl, inr, ◌⊎◌,
}
use chc_rental.Quota.{Quota, used, used_total, set_used, reserve_request, refund_request}

used-set_used :
    (s t : String) (n : ℕ) (q : Quota)
    → used t (set_used s n q) ≡ (if str_eq s t then n else used t q)
unfolding used set_used
used-set_used s t n [] = ground arith
used-set_used s t n ((u, m) ∷ q) =
    ground (arith, eq_iff u s, eq_iff u t, eq_iff s t, used-set_used s t n q)

total-set_used :
    (s : String) (n : ℕ) (q : Quota) → used_total (set_used s n q) + used s q ≡ used_total q + n
unfolding used_total set_used used
total-set_used s n [] = omega arith
total-set_used s n ((u, m) ∷ q) = ground (arith, total-set_used s n q)

used_self : (s : String) (n : ℕ) (q : Quota) → used s (set_used s n q) ≡ n
used_self s n q = ground (arith, used-set_used s s n q, eq_iff s s)

-- The two ways that a reservation ends.
pub data Reserved (source : String) (per_source_limit global_limit : ℕ) (q : Quota)
    : Bool × Quota → Type 0 where
  taken :
      (q' : Quota)
      → used source q' ≡ used source q + 1
      → used_total q' ≡ used_total q + 1
      → ((t : String) → str_eq source t ≡ false → used t q' ≡ used t q)
      → used source q' ≤ per_source_limit
      → used_total q' ≤ global_limit
      → Reserved source per_source_limit global_limit q (true, q')
  refused :
      (per_source_limit ≤ used source q) ⊎ (global_limit ≤ used_total q)
      → Reserved source per_source_limit global_limit q (false, q)

-- `reserve_request` takes one unit of its source, and of no other, within both ceilings; or it
-- changes nothing, and one of the ceilings is reached.
pub reserve_request-Reserved :
    (source : String) (per_source_limit global_limit : ℕ) (q : Quota)
    → Reserved source per_source_limit global_limit q
        (reserve_request source per_source_limit global_limit q)
unfolding reserve_request
reserve_request-Reserved source a b q =
    let q' = set_used source (used source q + 1) q in
    elim (Bool-cases (leb a (used source q))) [
      | inl full ↦ rw full (refused (inl (ground arith)))
      | inr room ↦ elim (Bool-cases (leb b (used_total q))) [
        | inl full ↦ rw (room, full) (refused (inr (ground arith)))
        | inr free ↦
            rw (room, free)
              (taken q' (used_self source (used source q + 1) q)
                (omega (arith, total-set_used source (used source q + 1) q))
                (λ t other. ground (arith, used-set_used source t (used source q + 1) q))
                (ground (arith, used_self source (used source q + 1) q))
                (ground (arith, total-set_used source (used source q + 1) q)))
      ]
    ]

-- The same counts for every source, and in all.
abbrev pub SameCounts : Quota → Quota → Type 0
SameCounts q q' = ((t : String) → used t q' ≡ used t q) × (used_total q' ≡ used_total q)

refund_one :
    (source : String) (q q' : Quota)
    → used source q' ≡ used source q + 1
    → used_total q' ≡ used_total q + 1
    → ((t : String) → str_eq source t ≡ false → used t q' ≡ used t q)
    → ((refund_request source q').0 ≡ true) × SameCounts q (refund_request source q').1
unfolding refund_request
refund_one source q q' more total other =
    let positive : (used source q' == 0) ≡ false = ground arith in
    rw positive (
      refl,
      (
        λ t. elim (Bool-cases (str_eq source t)) [
          | inl same ↦
              let e : source ≡ t = (eq_iff source t).0 same in
              rw (← e) (ground (arith, used_self source (used source q' - 1) q'))
          | inr differs ↦
              ground (arith, used-set_used source t (used source q' - 1) q', other t differs)
        ],
        omega (arith, total-set_used source (used source q' - 1) q', more),
      ),
    )

Reserved-refund :
    (source : String) (a b : ℕ) (q : Quota) (p : Bool × Quota)
    → Reserved source a b q p
    → p.0 ≡ true
    → ((refund_request source p.1).0 ≡ true) × SameCounts q (refund_request source p.1).1
Reserved-refund source a b q _ (taken q' more total other within within_all) e =
    refund_one source q q' more total other
Reserved-refund source a b q _ (refused full) e = cc

-- A refund after a reservation that was taken is taken too, and gives back every count.
pub reserve-refund :
    (source : String) (per_source_limit global_limit : ℕ) (q : Quota)
    → (reserve_request source per_source_limit global_limit q).0 ≡ true
    → ((refund_request source (reserve_request source per_source_limit global_limit q).1).0 ≡ true)
      × SameCounts q
          (refund_request source (reserve_request source per_source_limit global_limit q).1).1
reserve-refund source a b q e =
    Reserved-refund source a b q _ (reserve_request-Reserved source a b q) e
