-- ===== src/Collector/Turns.antt =====
-- The loop over the starts of a cycle uses up no more of them than there are.
use chc_rental.Base.{
  ℕ, zero, suc, ◌+◌, ◌≤◌, String, ◌≡◌, refl, Bool, true, false, Option, none, some, List, [], ◌∷◌,
  arith, is_none, Bool-cases, inl, inr, if-keeps, ◌∙◌,
}
use chc_rental.Base.Raise.{Result, ok, err}
use chc_rental.Ledger.{QueryScope}
use chc_rental.Ledger.Breaker.{breaker_of}
use chc_rental.Planner.Incremental.{PlannedSourceQuery}
use chc_rental.Collector.State.{
  IncrementalCollection, Client, Collector, Cycle, M, after, pure, of_ledger, ◌>>=◌,
}
use chc_rental.Collector.Start.{start, record_collection_health}
use chc_rental.Collector.Loop.{
  Report, Turn, start_claimed, after_start, if_claimed, start_planned, start_turn, go_on,
  start_loop, counted, is_breaker_open, is_in, planned_by_id, claim,
}
use chc_rental.Collector.Parts.{record_health-Does, claim-Does}
use chc_rental.Collector.Once.{Unasked, Unasked-Allows}
use chc_rental.Collector.Paid.{start-StartsOne}

-- What a turn of the loop leaves of the starts, and what it asked for, is no more than there was.
abbrev TurnLeft : ℕ → ℕ → Result Turn × Cycle → Type 0
TurnLeft n left (ok (stop, left', r), t) = t.starts + left' ≤ n + left
TurnLeft n left (err e, t) = t.starts ≤ n + left

abbrev pub AtMost {ℓ} : {A : Type ℓ} → ℕ → Result A × Cycle → Type 0
AtMost n p = p.1.starts ≤ n

module _ (c : Collector) (client : Client) (now : ℕ) (metered : c.meter_requests ≡ true) where
  counted-TurnLeft :
      (n left : ℕ) (r : Report) (k : IncrementalCollection) (stop : Bool) (t : Cycle)
      → t.starts ≤ n + 1
      → (is_none k.run_id ≡ true → t.starts ≡ n)
      → TurnLeft n (suc left) (ok (counted c client now (suc left) r k stop), t)
  counted-TurnLeft n left r k stop t once none_ = elim (Bool-cases (is_none k.run_id)) [
    | inl gone ↦ let e = none_ gone in rw gone (omega arith)
    | inr there ↦ rw there (omega arith)
  ]

  healthy-TurnLeft :
      (n left : ℕ) (r : Report) (k : IncrementalCollection) (t : Cycle)
      (p : Result (Unit {0}) × Cycle)
      → t.starts ≤ n + 1
      → (is_none k.run_id ≡ true → t.starts ≡ n)
      → Unasked t p.1
      → TurnLeft n (suc left) (
          after
            (λ u. of_ledger (breaker_of "zillow") >>= λ b.
              pure (counted c client now (suc left) r k (is_breaker_open b)))
            p)
  unfolding ◌>>=◌
  healthy-TurnLeft n left r k t (ok u, t') once none_ h =
      counted-TurnLeft n left r k _ t' (omega (arith, h.same_starts))
        (λ gone. let e = none_ gone in omega (arith, h.same_starts))
  healthy-TurnLeft n left r k t (err e, t') once none_ h = omega (arith, h.same_starts)

  started-TurnLeft :
      (n left : ℕ) (r : Report) (p : Result IncrementalCollection × Cycle)
      → p.1.starts ≤ n + 1
      → ((k : IncrementalCollection) → p.0 ≡ ok k → is_none k.run_id ≡ true → p.1.starts ≡ n)
      → TurnLeft n (suc left) (after (after_start c client now (suc left) r) p)
  unfolding after_start ◌>>=◌
  started-TurnLeft n left r (ok k, t) once none_ =
      healthy-TurnLeft n left r k t (record_collection_health c client now k t) once (none_ k refl)
        (record_health-Does Unasked Unasked-Allows c client now k t)
  started-TurnLeft n left r (err e, t) once none_ = omega arith

  claimed-TurnLeft :
      (scope : QueryScope) (planned : PlannedSourceQuery) (left : ℕ) (r : Report) (s : Cycle)
      (p : Result Bool × Cycle)
      → Unasked s p.1
      → TurnLeft s.starts (suc left) (after (if_claimed c client now scope planned (suc left) r) p)
  unfolding start_claimed ◌>>=◌
  claimed-TurnLeft scope planned left r s (ok true, t) h =
      let one = start-StartsOne c client now metered scope planned t in
      started-TurnLeft s.starts left r (start c client now scope planned t)
        (omega (arith, one.one_at_most, h.same_starts))
        (λ k e gone. one.with_a_run k e gone ∙ h.same_starts)
  claimed-TurnLeft scope planned left r s (ok false, t) h = omega (arith, h.same_starts)
  claimed-TurnLeft scope planned left r s (err e, t) h = omega (arith, h.same_starts)

  planned-TurnLeft :
      (scope : QueryScope) (planned : Option PlannedSourceQuery) (left : ℕ) (r : Report) (s : Cycle)
      → TurnLeft s.starts (suc left) (start_planned c client now scope planned (suc left) r s)
  unfolding ◌>>=◌
  planned-TurnLeft scope none left r s = omega arith
  planned-TurnLeft scope (some planned) left r s =
      claimed-TurnLeft scope planned left r s (claim c client now scope s)
        (claim-Does Unasked Unasked-Allows c client now scope s)

  turn-TurnLeft :
      (open_ : List String) (planned : List PlannedSourceQuery) (scope : QueryScope) (left : ℕ)
      (r : Report) (s : Cycle)
      → TurnLeft s.starts (suc left) (start_turn c client now open_ planned scope (suc left) r s)
  unfolding start_turn
  turn-TurnLeft open_ planned scope left r s =
      if-keeps (λ (m : M Turn). TurnLeft s.starts (suc left) (m s)) (is_in scope.query_id open_) _ _
        (omega arith) (planned-TurnLeft scope (planned_by_id planned scope.query_id) left r s)

  gone_on :
      (rest : ℕ → Report → M Report) (n left : ℕ) (p : Result Turn × Cycle)
      → TurnLeft n left p
      → ((left' : ℕ) (r : Report) (t : Cycle) → AtMost (t.starts + left') (rest left' r t))
      → AtMost (n + left) (after (go_on c client now rest) p)
  gone_on rest n left (ok (true, left', r), t) h bounded = omega arith
  gone_on rest n left (ok (false, left', r), t) h bounded = omega (arith, bounded left' r t)
  gone_on rest n left (err e, t) h bounded = h

  pub loop-AtMost :
      (open_ : List String) (planned : List PlannedSourceQuery) (scopes : List QueryScope)
      (left : ℕ) (r : Report) (s : Cycle)
      → AtMost (s.starts + left) (start_loop c client now open_ planned scopes left r s)
  unfolding start_loop ◌>>=◌
  loop-AtMost open_ planned [] left r s = omega arith
  loop-AtMost open_ planned (scope ∷ scopes) zero r s = omega arith
  loop-AtMost open_ planned (scope ∷ scopes) (suc n) r s =
      gone_on (start_loop c client now open_ planned scopes) s.starts (suc n)
        (start_turn c client now open_ planned scope (suc n) r s)
        (turn-TurnLeft open_ planned scope n r s)
        (λ left' r' t. loop-AtMost open_ planned scopes left' r' t)
