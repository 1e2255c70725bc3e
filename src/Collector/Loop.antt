-- ===== src/Collector/Loop.antt =====
-- `cycle` of src/chc_rental/incremental.py.
use chc_rental.Base.{
  ℕ, zero, suc, ◌+◌, ◌-◌, String, Bool, true, false, ◌&&◌, ◌||◌, not, Option, none, some, List, [],
  ◌∷◌, ◌++◌, map, length, leb, is_none, clock_ltb, str_eq, if◌then◌else◌,
}
use chc_rental.Base.Table.{rows_where, find_where, any_where}
use chc_rental.Base.Raise.{value}
use chc_rental.Models.{Settings}
use chc_rental.Ledger.{Ledger, QueryScope, SourceRun, SourceBreaker, opened, half_open}
use chc_rental.Ledger.Runs.{
  Scope, has_run, sync_query_scopes, due_query_scopes, claim_query_scope, open_source_runs,
  unprocessed_source_runs,
}
use chc_rental.Ledger.Breaker.{breaker_of, source_start_allowed}
use chc_rental.Ledger.Costs.{monthly_source_cost}
use chc_rental.Planner.Incremental.{PlannedSourceQuery, Planned, zillow, plan_incremental_queries}
use chc_rental.Collector.State.{
  CycleWarning, planning, alerts_disabled, zillow_disabled, outside_active_window, budget_reached,
  breaker_open, IncrementalCollection, IncrementalCycleReport, Client, Collector, M, pure, ◌>>=◌,
  ◌>>◌, of_ledger, update_ledger, read_ledger, require,
}
use chc_rental.Collector.Remote.{resume, recover_succeeded}
use chc_rental.Collector.Start.{start, record_collection_health}

abbrev pub Report : Type 0
Report = IncrementalCycleReport

abbrev pub warned : CycleWarning → Report → Report
warned w r = record r { warnings = r.warnings ++ w ∷ [] }

abbrev pub collected : IncrementalCollection → Report → Report
collected k r = record r { collections = r.collections ++ k ∷ [] }

-- `_inside_active_window` at a local clock time.
unfoldable pub inside_active_window : Settings → ℕ × ℕ → Bool
inside_active_window st current =
    let start_ = st.incremental_active_start in
    let end_ = st.incremental_active_end in
    if clock_ltb start_ end_
    then not (clock_ltb current start_) && clock_ltb current end_
    else not (clock_ltb current start_) || clock_ltb current end_

abbrev pub is_breaker_open : Option SourceBreaker → Bool
is_breaker_open none = false
is_breaker_open (some b) = elim b.state [ opened ↦ true | _ ↦ false ]

-- `starts_left`
abbrev pub starts_left : Settings → Option SourceBreaker → ℕ
starts_left st none = st.incremental_max_new_starts_per_cycle
starts_left st (some b) = elim b.state [
  | half_open ↦ 1
  | _ ↦ st.incremental_max_new_starts_per_cycle
]

abbrev pub planned_by_id : List PlannedSourceQuery → String → Option PlannedSourceQuery
planned_by_id planned query_id = find_where (λ p. str_eq p.query_id query_id) planned

abbrev pub to_scope : PlannedSourceQuery → Scope
to_scope p = record { query_id = p.query_id; source = p.source; query_json = p.query_json }

abbrev pub query_ids : List SourceRun → List String
query_ids runs = map (λ r. r.query_id) runs

-- `still_open`
abbrev pub still_open : Ledger → List String
still_open l = query_ids (open_source_runs l) ++ query_ids (unprocessed_source_runs l)

abbrev pub is_in : String → List String → Bool
is_in t ts = any_where (λ s. str_eq s t) ts

-- What a turn of the loop over the due scopes leaves: does the loop end, the starts that are left,
-- and the report.
abbrev pub Turn : Type 0
Turn = Bool × ℕ × Report

module _ (c : Collector) (client : Client) (now : ℕ) where
  unfoldable pub resume_all : List SourceRun → Report → M Report
  resume_all [] r = pure r
  resume_all (run ∷ runs) r = do
    k ← resume c.settings client now run
    record_collection_health c client now k
    resume_all runs (collected k (record r { resumed = r.resumed + 1 }))

  unfoldable pub recover_all : List SourceRun → Report → M Report
  recover_all [] r = pure r
  recover_all (run ∷ runs) r = do
    let k = recover_succeeded c.settings client now run
    record_collection_health c client now k
    recover_all runs (collected k (record r { recovered = r.recovered + 1 }))

  -- After a start: a run that was written down takes one of the starts that are left.
  abbrev pub counted : ℕ → Report → IncrementalCollection → Bool → Turn
  counted left r k stop =
      if is_none k.run_id
      then (stop, left, collected k r)
      else (stop, left - 1, collected k (record r { started = r.started + 1 }))

  unfoldable pub after_start : ℕ → Report → IncrementalCollection → M Turn
  after_start left r k = do
    record_collection_health c client now k
    b ← of_ledger (breaker_of "zillow")
    pure (counted left r k (is_breaker_open b))

  unfoldable pub start_claimed : QueryScope → PlannedSourceQuery → ℕ → Report → M Turn
  start_claimed scope planned left r = start c client now scope planned >>= after_start left r

  abbrev pub if_claimed : QueryScope → PlannedSourceQuery → ℕ → Report → Bool → M Turn
  if_claimed scope planned left r true = start_claimed scope planned left r
  if_claimed scope planned left r false = pure (false, left, r)

  unfoldable pub claim : QueryScope → M Bool
  claim scope =
      read_ledger (
        claim_query_scope scope.query_id c.worker_id now c.settings.incremental_query_lease_minutes)

  abbrev pub start_planned : QueryScope → Option PlannedSourceQuery → ℕ → Report → M Turn
  start_planned scope none left r = pure (false, left, r)
  start_planned scope (some planned) left r = claim scope >>= if_claimed scope planned left r

  -- One turn of the loop past its first test.
  unfoldable pub start_turn :
      List String → List PlannedSourceQuery → QueryScope → ℕ → Report → M Turn
  start_turn open_ planned scope left r =
      if is_in scope.query_id open_
      then pure (false, left, r)
      else start_planned scope (planned_by_id planned scope.query_id) left r

  abbrev pub go_on : (ℕ → Report → M Report) → Turn → M Report
  go_on rest (true, left, r) = pure r
  go_on rest (false, left, r) = rest left r

  unfoldable pub start_loop :
      List String → List PlannedSourceQuery → List QueryScope → ℕ → Report → M Report
  start_loop open_ planned [] left r = pure r
  start_loop open_ planned (scope ∷ scopes) zero r = pure r
  start_loop open_ planned (scope ∷ scopes) (suc n) r =
      start_turn open_ planned scope (suc n) r >>= go_on (start_loop open_ planned scopes)

  -- `known_cost_usd >= incremental_monthly_budget_usd`
  abbrev pub budget_spent : Ledger → Bool
  budget_spent l = c.meter_requests && elim c.settings.incremental_monthly_budget_usd [
    | none ↦ false
    | some budget ↦
        let (start_, end_) = c.month_of now in
        leb budget (monthly_source_cost "zillow" start_ end_ l).known_cost_usd
  ]

  -- The breaker is asked only where requests are metered; to ask it may claim the probe.
  unfoldable pub start_allowed : M Bool
  start_allowed =
      if c.meter_requests then read_ledger (source_start_allowed "zillow" now) else pure true

  abbrev pub if_allowed :
      List String → List PlannedSourceQuery → List QueryScope → Report → Bool → M Report
  if_allowed open_ planned due r false = pure (warned breaker_open r)
  if_allowed open_ planned due r true = do
    b ← of_ledger (breaker_of "zillow")
    start_loop open_ planned due (starts_left c.settings b) r

  abbrev pub start_gated :
      List String → List PlannedSourceQuery → List QueryScope → Report → Bool → M Report
  start_gated open_ planned due r true = pure (warned budget_reached r)
  start_gated open_ planned due r false = start_allowed >>= if_allowed open_ planned due r

  -- The scopes that are due, not in flight and planned.
  abbrev pub due_scopes : List PlannedSourceQuery → Ledger → List QueryScope
  due_scopes planned l =
      rows_where
        (λ q.
          not (is_in q.query_id (still_open l)) && not (is_none (planned_by_id planned q.query_id)))
        (due_query_scopes now none l)

  abbrev pub start_found : List PlannedSourceQuery → Report → Ledger → List QueryScope → M Report
  start_found planned r l [] = pure r
  start_found planned r l (q ∷ qs) = start_gated (still_open l) planned (q ∷ qs) r (budget_spent l)

  unfoldable pub start_due : List PlannedSourceQuery → Report → Ledger → M Report
  start_due planned r l = start_found planned r l (due_scopes planned l)

  abbrev pub in_window : List PlannedSourceQuery → Report → M Report
  in_window planned r =
      if inside_active_window c.settings (c.local_clock c.settings.scrape_timezone now)
      then of_ledger (λ l. l) >>= start_due planned r
      else pure (warned outside_active_window r)

  -- Successes that predate the cycle: those of a run that was open are in its resumed collection.
  abbrev pub recoverable : List SourceRun → Ledger → List SourceRun
  recoverable open_ l =
      rows_where (λ r. not (any_where (has_run r.run_id) open_)) (unprocessed_source_runs l)

  unfoldable pub collect : List PlannedSourceQuery → Report → M Report
  collect planned r = do
    open_ ← of_ledger open_source_runs
    r' ← resume_all open_ r
    runs ← of_ledger (recoverable open_)
    r'' ← recover_all runs r'
    in_window planned r''

  abbrev pub planned_report : Planned → Report
  planned_report (planned, warnings) = record {
    planned_scopes = length planned;
    started = 0;
    resumed = 0;
    recovered = 0;
    warnings = map planning warnings;
    collections = [];
  }

  -- The two kill switches.
  abbrev pub if_enabled : List PlannedSourceQuery → Report → M Report
  if_enabled planned r =
      if not c.settings.incremental_alerts_enabled && not c.allow_disabled
      then pure (warned alerts_disabled r)
      else if not c.settings.zillow_enabled && not c.allow_disabled
      then pure (warned zillow_disabled r)
      else collect planned r

  abbrev pub plan : M Planned
  plan s = (plan_incremental_queries c.hashing zillow c.allowlist, s)

  unfoldable pub cycle : M Report
  cycle = do
    require c.config_ready value
    require c.ledger_ready value
    p ← plan
    update_ledger (sync_query_scopes (map to_scope p.0) now)
    if_enabled p.0 (planned_report p)
