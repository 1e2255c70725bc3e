-- ===== src/Collector/Start.antt =====
-- `_start` and `_record_collection_health` of src/chc_rental/incremental.py.
use chc_rental.Base.{ℕ, ◌+◌, String, Bool, true, false, Option, none, some, ◌==◌, if◌then◌else◌}
use chc_rental.Base.Str.{truncate}
use chc_rental.Base.Raise.{ok}
use chc_rental.Models.{source_request_budget}
use chc_rental.Ledger.{QueryScope, RunStatus, live, fixture}
use chc_rental.Ledger.Runs.{
  RunInput, create_source_run, attach_apify_run, finish_source_run, source_run, release_query_scope,
  defer_query_scope,
}
use chc_rental.Ledger.Breaker.{
  Failure, record_source_success, record_source_failure, release_source_probe,
}
use chc_rental.Quota.{reserve_request}
use chc_rental.Planner.Incremental.{PlannedSourceQuery}
use chc_rental.Collector.State.{
  Remote, answer, auth_error, rate_limit_error, source_error, ApifyRunState, CollectionStatus,
  IncrementalCollection, Client, Collector, M, pure, ◌>>=◌, ◌>>◌, of_ledger, update_ledger,
  call_ledger, minutes,
}
use chc_rental.Collector.Remote.{
  collection, auth_text, rate_limit_text, source_text, failure, interval, short_interval,
  process_remote,
}

module _ (c : Collector) (client : Client) (now : ℕ) where
  -- What `_start` does with an error: the run that was written down fails, and its scope is given
  -- back until a time.
  unfoldable pub start_failed :
      String → String → CollectionStatus → String → String → String → ℕ → M IncrementalCollection
  start_failed query_id run_id status error_class text stored next_due = do
    call_ledger (
        finish_source_run run_id (failure RunStatus.failed (some error_class) (some stored) none)
          now)
    update_ledger (release_query_scope query_id now next_due false)
    pure (record (collection query_id (some run_id) status) { error = some text })

  -- `exc.retry_after or (tick * 60)`
  abbrev pub retry_seconds : Option ℕ → ℕ
  retry_seconds none = minutes c.settings.incremental_scheduler_tick_minutes
  retry_seconds (some t) =
      if t == 0 then minutes c.settings.incremental_scheduler_tick_minutes else t

  unfoldable pub on_started : String → String → Remote ApifyRunState → M IncrementalCollection
  on_started query_id run_id (answer remote) = do
    call_ledger (attach_apify_run run_id remote.run_id remote.default_dataset_id now)
    run ← of_ledger (source_run run_id)
    process_remote c.settings client now run remote
  on_started query_id run_id (auth_error m) =
      start_failed query_id run_id CollectionStatus.auth_failed "auth" (auth_text m)
        (auth_text (truncate 500 m)) (now + interval c.settings)
  on_started query_id run_id (rate_limit_error r m) =
      start_failed query_id run_id CollectionStatus.rate_limited "rate_limited" (rate_limit_text m)
        (rate_limit_text (truncate 500 m)) (now + retry_seconds r)
  on_started query_id run_id (source_error n m) =
      start_failed query_id run_id CollectionStatus.start_uncertain "start_uncertain"
        (source_text n m) (source_text n (truncate 500 m)) (now + interval c.settings)

  -- `uuid4()` and the call of the actor.
  abbrev pub new_run_id : M String
  new_run_id s = (ok (client.new_run_id s.starts), s)

  unfoldable pub start_actor : String → M (Remote ApifyRunState)
  start_actor payload s =
      (ok (client.start_actor s.starts payload), record s { starts = s.starts + 1 })

  abbrev pub run_input : String → String → String → RunInput
  run_input query_id run_id payload = record {
    run_id = run_id;
    query_id = query_id;
    source = "zillow";
    execution_mode = if c.meter_requests then live else fixture;
    input_fingerprint = client.fingerprint payload;
  }

  -- The request is within the budget.
  unfoldable pub start_paid : String → String → M IncrementalCollection
  start_paid query_id payload = do
    run_id ← new_run_id
    call_ledger (create_source_run (run_input query_id run_id payload) now)
    remote ← start_actor payload
    on_started query_id run_id remote

  -- One request is claimed of the budgets of the day, where requests are metered.
  unfoldable pub reserve : M Bool
  reserve s =
      let (taken, q) =
        reserve_request "zillow" (source_request_budget c.settings "zillow")
          c.settings.global_daily_request_budget s.quota in
      if c.meter_requests then (ok taken, record s { quota = q }) else (ok true, s)

  unfoldable pub budget_deferred : String → M IncrementalCollection
  budget_deferred query_id = do
    update_ledger (
        defer_query_scope query_id now
          (now + minutes c.settings.incremental_scheduler_tick_minutes))
    pure (record (collection query_id none CollectionStatus.budget_deferred) {
      error = some "Zillow or global daily request budget exhausted";
    })

  abbrev pub start_if : String → String → Bool → M IncrementalCollection
  start_if query_id payload true = start_paid query_id payload
  start_if query_id payload false = budget_deferred query_id

  -- The scope is given back where the adapter refuses its query.
  unfoldable pub on_refused : String → String → M IncrementalCollection
  on_refused query_id text = do
    update_ledger (release_query_scope query_id now (now + short_interval c.settings) false)
    pure (record (collection query_id none CollectionStatus.failed) { error = some text })

  unfoldable pub on_input : String → Remote String → M IncrementalCollection
  on_input query_id (answer payload) = reserve >>= start_if query_id payload
  on_input query_id (auth_error m) = on_refused query_id (auth_text m)
  on_input query_id (rate_limit_error r m) = on_refused query_id (rate_limit_text m)
  on_input query_id (source_error n m) = on_refused query_id (source_text n m)

  unfoldable pub start : QueryScope → PlannedSourceQuery → M IncrementalCollection
  start scope planned = on_input scope.query_id (client.actor_input planned.query)

  abbrev pub source_failure : CollectionStatus → String → Option String → Failure
  source_failure status text error = record {
    at = now;
    error_class = text;
    error_message = error;
    threshold = c.settings.incremental_source_breaker_failures;
    cooldown_minutes = c.settings.incremental_source_breaker_cooldown_minutes;
    immediate_open = elim status [ CollectionStatus.auth_failed ↦ true | _ ↦ false ];
  }

  abbrev pub fail_source : CollectionStatus → String → Option String → M (Unit {0})
  fail_source status text error =
      update_ledger (λ l. (record_source_failure "zillow" (source_failure status text error) l).1)

  -- What a collection says of the health of its source.
  abbrev pub health : CollectionStatus → Option String → M (Unit {0})
  health CollectionStatus.succeeded error =
      update_ledger (λ l. (record_source_success "zillow" now l).1)
  health CollectionStatus.running error = pure tt
  health CollectionStatus.budget_deferred error = update_ledger (release_source_probe "zillow" now)
  health CollectionStatus.rate_limited error = update_ledger (release_source_probe "zillow" now)
  health CollectionStatus.failed error = fail_source CollectionStatus.failed "failed" error
  health CollectionStatus.timed_out error = fail_source CollectionStatus.timed_out "timed_out" error
  health CollectionStatus.cancelled error = fail_source CollectionStatus.cancelled "cancelled" error
  health CollectionStatus.start_uncertain error =
      fail_source CollectionStatus.start_uncertain "start_uncertain" error
  health CollectionStatus.dataset_failed error =
      fail_source CollectionStatus.dataset_failed "dataset_failed" error
  health CollectionStatus.poll_failed error =
      fail_source CollectionStatus.poll_failed "poll_failed" error
  health CollectionStatus.auth_failed error =
      fail_source CollectionStatus.auth_failed "auth_failed" error

  unfoldable pub record_collection_health : IncrementalCollection → M (Unit {0})
  record_collection_health k = if c.meter_requests then health k.status k.error else pure tt
