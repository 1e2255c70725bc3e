-- ===== src/Collector/Whole.antt =====
-- What holds of the methods that a cycle calls, and of a start, holds of the cycle.
use chc_rental.Base.{
  ℕ, zero, suc, String, Bool, true, false, ◌&&◌, not, Option, none, some, List, [], ◌∷◌, map,
}
use chc_rental.Ledger.{Ledger, QueryScope}
use chc_rental.Ledger.Runs.{sync_query_scopes, open_source_runs}
use chc_rental.Ledger.Runs.Steps.{sync, step}
use chc_rental.Ledger.Breaker.{breaker_of}
use chc_rental.Planner.Incremental.{PlannedSourceQuery, Planned}
use chc_rental.Collector.State.{Client, Collector, Cycle, M, ◌>>◌, update_ledger, require}
use chc_rental.Base.Raise.{value}
use chc_rental.Collector.Start.{start}
use chc_rental.Collector.Loop.{
  Report, Turn, start_claimed, after_start, if_claimed, start_planned, start_turn, go_on,
  start_loop, if_allowed, start_gated, start_due, in_window, collect, if_enabled, cycle,
  inside_active_window, due_scopes, still_open, is_in, planned_by_id, to_scope, planned_report,
  plan, recoverable, start_found,
}
use chc_rental.Collector.Does.{Allows, Does, Does->>=, Does-if, Does-of_ledger}
use chc_rental.Collector.Parts.{
  record_health-Does, resume_all-Does, recover_all-Does, claim-Does, start_allowed-Does,
}

module _ (R : Cycle → Cycle → Type 0) (allows : Allows R) (c : Collector) (client : Client)
    (now : ℕ)
    (starts : (scope : QueryScope) (p : PlannedSourceQuery)
      → Does R allows (start c client now scope p)) where
  claimed-Does :
      (scope : QueryScope) (p : PlannedSourceQuery) (left : ℕ) (r : Report)
      → Does R allows (start_claimed c client now scope p left r)
  unfolding start_claimed after_start
  claimed-Does scope p left r = Does->>= R allows _ _ (starts scope p) (λ k.
      Does->>= R allows _ _ (record_health-Does R allows c client now k) (λ u.
        Does->>= R allows _ _ (Does-of_ledger R allows (breaker_of "zillow")) (λ b. allows.stays)))

  if_claimed-Does :
      (scope : QueryScope) (p : PlannedSourceQuery) (left : ℕ) (r : Report) (claimed : Bool)
      → Does R allows (if_claimed c client now scope p left r claimed)
  if_claimed-Does scope p left r true = claimed-Does scope p left r
  if_claimed-Does scope p left r false = allows.stays

  planned-Does :
      (scope : QueryScope) (p : Option PlannedSourceQuery) (left : ℕ) (r : Report)
      → Does R allows (start_planned c client now scope p left r)
  planned-Does scope none left r = allows.stays
  planned-Does scope (some p) left r =
      Does->>= R allows _ _ (claim-Does R allows c client now scope)
        (if_claimed-Does scope p left r)

  pub turn-Does :
      (open_ : List String) (planned : List PlannedSourceQuery) (scope : QueryScope) (left : ℕ)
      (r : Report)
      → Does R allows (start_turn c client now open_ planned scope left r)
  unfolding start_turn
  turn-Does open_ planned scope left r =
      Does-if R allows (is_in scope.query_id open_) _ _ allows.stays
        (planned-Does scope (planned_by_id planned scope.query_id) left r)

  go_on-Does :
      (rest : ℕ → Report → M Report) (t : Turn)
      → ((left : ℕ) (r : Report) → Does R allows (rest left r))
      → Does R allows (go_on c client now rest t)
  go_on-Does rest (true, left, r) does = allows.stays
  go_on-Does rest (false, left, r) does = does left r

  loop-Does :
      (open_ : List String) (planned : List PlannedSourceQuery) (scopes : List QueryScope)
      (left : ℕ) (r : Report)
      → Does R allows (start_loop c client now open_ planned scopes left r)
  unfolding start_loop
  loop-Does open_ planned [] left r = allows.stays
  loop-Does open_ planned (scope ∷ scopes) zero r = allows.stays
  loop-Does open_ planned (scope ∷ scopes) (suc n) r =
      Does->>= R allows _ _ (turn-Does open_ planned scope (suc n) r) (λ t.
        go_on-Does (start_loop c client now open_ planned scopes) t
          (loop-Does open_ planned scopes))

  allowed-Does :
      (open_ : List String) (planned : List PlannedSourceQuery) (due : List QueryScope) (r : Report)
      (b : Bool)
      → Does R allows (if_allowed c client now open_ planned due r b)
  allowed-Does open_ planned due r false = allows.stays
  allowed-Does open_ planned due r true =
      Does->>= R allows _ _ (Does-of_ledger R allows (breaker_of "zillow"))
        (λ b. loop-Does open_ planned due _ r)

  gated-Does :
      (open_ : List String) (planned : List PlannedSourceQuery) (due : List QueryScope) (r : Report)
      (b : Bool)
      → Does R allows (start_gated c client now open_ planned due r b)
  gated-Does open_ planned due r true = allows.stays
  gated-Does open_ planned due r false =
      Does->>= R allows _ _ (start_allowed-Does R allows c client now)
        (allowed-Does open_ planned due r)

  found-Does :
      (planned : List PlannedSourceQuery) (r : Report) (l : Ledger) (due : List QueryScope)
      → Does R allows (start_found c client now planned r l due)
  found-Does planned r l [] = allows.stays
  found-Does planned r l (q ∷ qs) = gated-Does (still_open l) planned (q ∷ qs) r _

  due-Does :
      (planned : List PlannedSourceQuery) (r : Report) (l : Ledger)
      → Does R allows (start_due c client now planned r l)
  unfolding start_due
  due-Does planned r l = found-Does planned r l (due_scopes c client now planned l)

  window-Does :
      (planned : List PlannedSourceQuery) (r : Report)
      → Does R allows (in_window c client now planned r)
  window-Does planned r =
      Does-if R allows
        (inside_active_window c.settings (c.local_clock c.settings.scrape_timezone now)) _ _
        (Does->>= R allows _ _ (Does-of_ledger R allows (λ l. l)) (due-Does planned r)) allows.stays

  collect-Does :
      (planned : List PlannedSourceQuery) (r : Report)
      → Does R allows (collect c client now planned r)
  unfolding collect
  collect-Does planned r =
      Does->>= R allows _ _ (Does-of_ledger R allows open_source_runs) (λ open_.
        Does->>= R allows _ _ (resume_all-Does R allows c client now open_ r) (λ r'.
          Does->>= R allows _ _ (Does-of_ledger R allows (recoverable c client now open_)) (λ runs.
            Does->>= R allows _ _ (recover_all-Does R allows c client now runs r')
              (window-Does planned))))

  enabled-Does :
      (planned : List PlannedSourceQuery) (r : Report)
      → Does R allows (if_enabled c client now planned r)
  enabled-Does planned r =
      Does-if R allows (not c.settings.incremental_alerts_enabled && not c.allow_disabled) _ _
        allows.stays
        (Does-if R allows (not c.settings.zillow_enabled && not c.allow_disabled) _ _ allows.stays
          (collect-Does planned r))

  synced-Does :
      (p : Planned)
      → Does R allows (
          update_ledger (sync_query_scopes (map to_scope p.0) now)
          >> if_enabled c client now p.0 (planned_report c client now p))
  unfolding step
  synced-Does p =
      Does->>= R allows _ _ (allows.runs (sync (map to_scope p.0) now)) (λ u. enabled-Does p.0 _)

  require-Does : (b : Bool) → Does R allows (require b value)
  require-Does true = allows.stays
  require-Does false = allows.stays

  pub cycle-Does : Does R allows (cycle c client now)
  unfolding cycle
  cycle-Does = Does->>= R allows _ _ (require-Does c.config_ready) (λ u.
      Does->>= R allows _ _ (require-Does c.ledger_ready)
        (λ v. Does->>= R allows (plan c client now) _ allows.stays synced-Does))
