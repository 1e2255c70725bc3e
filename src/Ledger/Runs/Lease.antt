-- ===== src/Ledger/Runs/Lease.antt =====
-- The lease on a query scope.
use chc_rental.Base.{
  ℕ, ◌+◌, ◌≤◌, String, ◌≡◌, refl, true, false, List, [], ◌∷◌, arith, Bool-cases, inl, inr, eq_iff,
}
use chc_rental.Base.Table.{update_where, count_where, any_where, All, update_where-none}
use chc_rental.Base.Table.Distinct.{Distinct, All-any_where, All-map}
use chc_rental.Ledger.{Ledger, QueryScope}
use chc_rental.Ledger.Runs.{
  has_query, is_due_scope, is_claimable, lease_row, minutes, claim_query_scope,
}
use chc_rental.Ledger.Runs.Steps.{Op, steps}
use chc_rental.Ledger.Runs.Held.{IsHeld, IsHeld-steps, ends_lease, not_claimable, same_query}

refused :
    (query owner : String) (now m : ℕ) (l : Ledger)
    → count_where (is_claimable query now) l.query_scopes ≡ 0
    → claim_query_scope query owner now m l ≡ (false, l)
unfolding claim_query_scope
refused query owner now m l none_ =
    rw (
      none_,
      update_where-none (is_claimable query now) (lease_row owner now m) l.query_scopes none_,
    )

none_claimable :
    (query : String) (now : ℕ) (rows : List QueryScope)
    → All (λ q. has_query query q ≡ false) rows
    → count_where (is_claimable query now) rows ≡ 0
unfolding count_where
none_claimable query now [] h = refl
none_claimable query now (q ∷ rows) h =
    let here = h.0 in ground (arith, none_claimable query now rows h.1)

-- The other rows are of other scopes.
others :
    (query : String) (q : QueryScope) (rows : List QueryScope)
    → has_query query q ≡ true
    → any_where (same_query q) rows ≡ false
    → All (λ r. has_query query r ≡ false) rows
others query q rows own unique =
    All-map rows
      (λ r other.
        ground
          (arith, eq_iff q.query_id r.query_id, eq_iff q.query_id query, eq_iff r.query_id query))
      (All-any_where (same_query q) rows unique)

claim-IsHeld :
    (query owner : String) (now m : ℕ) (rows : List QueryScope)
    → count_where (is_claimable query now) rows ≡ 1
    → Distinct same_query rows
    → IsHeld query
        (now + minutes m)
        (update_where (is_claimable query now) (lease_row owner now m) rows)
unfolding count_where update_where any_where
claim-IsHeld query owner now m [] one unique = absurd (omega arith)
claim-IsHeld query owner now m (q ∷ rows) one unique =
    let p = is_claimable query now in
    elim (Bool-cases (has_query query q)) [
      | inl own ↦
          let rest = others query q rows own unique.0 in
          let free = none_claimable query now rows rest in
          let due : is_due_scope now q ≡ true = ground arith in
          rw (own, due, update_where-none p (lease_row owner now m) rows free)
            (ground arith, (λ o. ground arith, All-map rows (λ r other yes_. ground arith) rest))
      | inr other ↦
          let held = claim-IsHeld query owner now m rows (ground arith) unique.1 in
          let there = held.0 in rw other (ground arith, (λ o. ground arith, held.1))
    ]

-- Once a call has claimed a scope, every other claim at a time up to the end of the lease is refused
-- and changes nothing, whatever calls come between them but a defer or a release of that scope.
pub lease_exclusive :
    (query owner owner' : String) (now now' m m' : ℕ) (ops : List Op) (l : Ledger)
    → Distinct same_query l.query_scopes
    → (claim_query_scope query owner now m l).0 ≡ true
    → All (λ op. ends_lease query op ≡ false) ops
    → now' ≤ now + minutes m
    → claim_query_scope query owner' now' m' (steps ops (claim_query_scope query owner now m l).1)
      ≡ (false, steps ops (claim_query_scope query owner now m l).1)
lease_exclusive query owner owner' now now' m m' ops l unique won keeps early =
    let held : IsHeld query (now + minutes m)
        (claim_query_scope query owner now m l).1.query_scopes =
      unfold claim_query_scope in
      claim-IsHeld query owner now m l.query_scopes (unfold claim_query_scope in ground arith)
        unique in
    let later =
      IsHeld-steps query (now + minutes m) ops (claim_query_scope query owner now m l).1 keeps
        held in
    refused query owner' now' m' (steps ops (claim_query_scope query owner now m l).1)
      (not_claimable query (now + minutes m) now' _ early later.1)
