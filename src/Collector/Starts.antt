-- ===== src/Collector/Starts.antt =====
-- What holds of the methods that a start calls holds of a start.
use chc_rental.Base.{ℕ, String, Bool, true, false}
use chc_rental.Ledger.{QueryScope}
use chc_rental.Ledger.Runs.Steps.{defer, release, create, attach, finish, step}
use chc_rental.Planner.Incremental.{PlannedSourceQuery}
use chc_rental.Collector.State.{
  Remote, answer, auth_error, rate_limit_error, source_error, ApifyRunState, CollectionStatus,
  Client, Collector, Cycle,
}
use chc_rental.Collector.Start.{
  start_failed, on_started, start_paid, start_actor, reserve, budget_deferred, start_if, on_refused,
  on_input, start, new_run_id,
}
use chc_rental.Collector.Does.{Allows, Does, Does->>=, Does-of_ledger}
use chc_rental.Collector.Parts.{process_remote-Does}
use chc_rental.Ledger.Runs.{source_run}

module _ (R : Cycle → Cycle → Type 0) (allows : Allows R) (c : Collector) (client : Client)
    (now : ℕ) where
  failed-Does :
      (query run : String) (status : CollectionStatus) (e t u : String) (next_due : ℕ)
      → Does R allows (start_failed c client now query run status e t u next_due)
  unfolding start_failed step
  failed-Does query run status e t u next_due =
      Does->>= R allows _ _ (allows.runs (finish run _ now)) (λ v.
        Does->>= R allows _ _ (allows.runs (release query now next_due false)) (λ w. allows.stays))

  pub started-Does :
      (query run : String) (remote : Remote ApifyRunState)
      → Does R allows (on_started c client now query run remote)
  unfolding on_started step
  started-Does query run (answer remote) =
      Does->>= R allows _ _ (allows.runs (attach run remote.run_id remote.default_dataset_id now))
        (λ v.
          Does->>= R allows _ _ (Does-of_ledger R allows (source_run run))
            (λ r. process_remote-Does R allows c.settings client now r remote))
  started-Does query run (auth_error m) = failed-Does query run CollectionStatus.auth_failed _ _ _ _
  started-Does query run (rate_limit_error r m) =
      failed-Does query run CollectionStatus.rate_limited _ _ _ _
  started-Does query run (source_error n m) =
      failed-Does query run CollectionStatus.start_uncertain _ _ _ _

  pub deferred-Does : (query : String) → Does R allows (budget_deferred c client now query)
  unfolding budget_deferred step
  deferred-Does query = Does->>= R allows _ _ (allows.runs (defer query now _)) (λ v. allows.stays)

  pub refused-Does : (query text : String) → Does R allows (on_refused c client now query text)
  unfolding on_refused step
  refused-Does query text =
      Does->>= R allows _ _ (allows.runs (release query now _ false)) (λ v. allows.stays)

module _ (R : Cycle → Cycle → Type 0) (allows : Allows R) (c : Collector) (client : Client)
    (now : ℕ) (reserves : Does R allows (reserve c client now))
    (asks : (payload : String) → Does R allows (start_actor c client now payload)) where
  paid-Does : (query payload : String) → Does R allows (start_paid c client now query payload)
  unfolding start_paid step
  paid-Does query payload = Does->>= R allows (new_run_id c client now) _ allows.stays (λ run.
      Does->>= R allows _ _ (allows.runs (create _ now))
        (λ v. Does->>= R allows _ _ (asks payload) (started-Does R allows c client now query run)))

  start_if-Does :
      (query payload : String) (b : Bool) → Does R allows (start_if c client now query payload b)
  start_if-Does query payload true = paid-Does query payload
  start_if-Does query payload false = deferred-Does R allows c client now query

  input-Does :
      (query : String) (input : Remote String) → Does R allows (on_input c client now query input)
  unfolding on_input
  input-Does query (answer payload) = Does->>= R allows _ _ reserves (start_if-Does query payload)
  input-Does query (auth_error m) = refused-Does R allows c client now query _
  input-Does query (rate_limit_error r m) = refused-Does R allows c client now query _
  input-Does query (source_error n m) = refused-Does R allows c client now query _

  pub start-Does :
      (scope : QueryScope) (p : PlannedSourceQuery) → Does R allows (start c client now scope p)
  unfolding start
  start-Does scope p = input-Does scope.query_id (client.actor_input p.query)
