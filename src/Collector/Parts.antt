-- ===== src/Collector/Parts.antt =====
-- What holds of the methods that a cycle calls holds of its parts, and of the cycle.
use chc_rental.Base.{
  ℕ, String, Bool, true, false, Option, none, some, List, [], ◌∷◌, str_eq, Option-cases, inl, inr,
}
use chc_rental.Models.{Settings}
use chc_rental.Ledger.{QueryScope, SourceRun, RunStatus}
use chc_rental.Ledger.Runs.{Finish}
use chc_rental.Ledger.Runs.Steps.{claim, release, finish, step}
use chc_rental.Ledger.Breaker.States.{Event, apply}
use chc_rental.Ledger.Breaker.States
use chc_rental.Collector.State.{
  Raw, Remote, answer, auth_error, rate_limit_error, source_error, ApifyStatus, ApifyRunState,
  CollectionStatus, IncrementalCollection, Client, Collector, Cycle,
}
use chc_rental.Collector.Remote.{
  settle, on_failed, on_missing_dataset, on_dataset, on_succeeded, process_run, process_remote,
  on_polled, on_lost, resume, or_text, read_dataset, poll,
}
use chc_rental.Collector.Start.{record_collection_health, health, fail_source, source_failure}
use chc_rental.Collector.Loop
use chc_rental.Collector.Loop.{Report, Turn}
use chc_rental.Collector.Does.{Allows, Does, Does->>=, Does-if}

module _ (R : Cycle → Cycle → Type 0) (allows : Allows R) where
  pub settle-Does :
      (run : SourceRun) (f : Finish) (now next_due : ℕ) (succeeded_ : Bool)
      → Does R allows (settle run f now next_due succeeded_)
  unfolding settle step
  settle-Does run f now next_due succeeded_ =
      Does->>= R allows _ _ (allows.runs (finish run.run_id f now))
        (λ u. allows.runs (release run.query_id now next_due succeeded_))

  module _ (st : Settings) (c : Client) (now : ℕ) where
    on_missing-Does :
        (run : SourceRun) (remote : ApifyRunState)
        → Does R allows (on_missing_dataset st c now run remote)
    unfolding on_missing_dataset
    on_missing-Does run remote =
        Does->>= R allows _ _ (settle-Does run _ now _ false) (λ u. allows.stays)

    on_dataset-Does :
        (run : SourceRun) (remote : ApifyRunState) (d : String)
        (data_ : Remote (List Raw × List Raw))
        → Does R allows (on_dataset st c now run remote d data_)
    unfolding on_dataset
    on_dataset-Does run remote d (answer (raw, records)) =
        Does->>= R allows _ _ (settle-Does run _ now _ true) (λ u. allows.stays)
    on_dataset-Does run remote d (auth_error m) = allows.stays
    on_dataset-Does run remote d (rate_limit_error r m) = allows.stays
    on_dataset-Does run remote d (source_error n m) = allows.stays

    on_failed-Does :
        (run : SourceRun) (remote : ApifyRunState)
        (f : RunStatus × CollectionStatus × String × String)
        → Does R allows (on_failed st c now run remote f)
    unfolding on_failed
    on_failed-Does run remote (terminal, status, error_class, text) =
        Does->>= R allows _ _ (settle-Does run _ now _ false) (λ u. allows.stays)

    on_succeeded-Does :
        (run : SourceRun) (remote : ApifyRunState)
        → Does R allows (on_succeeded st c now run remote)
    unfolding on_succeeded
    on_succeeded-Does run remote =
        elim (Option-cases (or_text remote.default_dataset_id run.default_dataset_id)) [
          | inl e ↦ rw (e, on_succeeded) (on_missing-Does run remote)
          | inr (d, e) ↦
              rw (e, on_succeeded)
                (Does-if R allows (str_eq d "") _ _ (on_missing-Does run remote)
                  (on_dataset-Does run remote d (read_dataset c d)))
        ]

    pub process_run-Does :
        (run : SourceRun) (remote : ApifyRunState) → Does R allows (process_run st c now run remote)
    unfolding process_run
    process_run-Does run remote = by_status remote.status
      where
        by_status :
            (status : ApifyStatus)
            → Does R allows (process_run st c now run (record remote { status = status }))
        by_status (ApifyStatus.not_terminal t) = allows.stays
        by_status ApifyStatus.succeeded =
            on_succeeded-Does run (record remote { status = ApifyStatus.succeeded })
        by_status ApifyStatus.failed =
            on_failed-Does run (record remote { status = ApifyStatus.failed }) _
        by_status ApifyStatus.timed_out =
            on_failed-Does run (record remote { status = ApifyStatus.timed_out }) _
        by_status ApifyStatus.aborted =
            on_failed-Does run (record remote { status = ApifyStatus.aborted }) _

    pub process_remote-Does :
        (run : Option SourceRun) (remote : ApifyRunState)
        → Does R allows (process_remote st c now run remote)
    unfolding process_remote
    process_remote-Does none remote = allows.stays
    process_remote-Does (some run) remote = process_run-Does run remote

    on_polled-Does :
        (run : SourceRun) (remote : Remote ApifyRunState)
        → Does R allows (on_polled st c now run remote)
    unfolding on_polled
    on_polled-Does run (answer remote) = process_run-Does run remote
    on_polled-Does run (auth_error m) = allows.stays
    on_polled-Does run (rate_limit_error r m) = allows.stays
    on_polled-Does run (source_error n m) = allows.stays

    on_lost-Does : (run : SourceRun) → Does R allows (on_lost st c now run)
    unfolding on_lost
    on_lost-Does run = Does->>= R allows _ _ (settle-Does run _ now _ false) (λ u. allows.stays)

    poll-Does :
        (run : SourceRun) (id : Option String)
        → Does R allows (elim id [ none ↦ on_lost st c now run | some i ↦ poll st c now run i ])
    poll-Does run none = on_lost-Does run
    poll-Does run (some i) =
        Does-if R allows (str_eq i "") _ _ (on_lost-Does run) (on_polled-Does run (c.get_run i))

    pub resume-Does : (run : SourceRun) → Does R allows (resume st c now run)
    unfolding resume
    resume-Does run = by_status run.status
      where
        by_status :
            (status : RunStatus) → Does R allows (resume st c now (record run { status = status }))
        by_status RunStatus.reserved = on_lost-Does (record run { status = RunStatus.reserved })
        by_status RunStatus.running =
            poll-Does (record run { status = RunStatus.running }) run.apify_run_id
        by_status RunStatus.succeeded =
            poll-Does (record run { status = RunStatus.succeeded }) run.apify_run_id
        by_status RunStatus.failed =
            poll-Does (record run { status = RunStatus.failed }) run.apify_run_id
        by_status RunStatus.timed_out =
            poll-Does (record run { status = RunStatus.timed_out }) run.apify_run_id
        by_status RunStatus.cancelled =
            poll-Does (record run { status = RunStatus.cancelled }) run.apify_run_id

  module _ (c : Collector) (client : Client) (now : ℕ) where
    fail-Does :
        (status : CollectionStatus) (text : String) (error : Option String)
        → Does R allows (fail_source c client now status text error)
    unfolding apply
    fail-Does status text error =
        allows.breaks (States.failure (source_failure c client now status text error))

    health-Does :
        (status : CollectionStatus) (error : Option String)
        → Does R allows (health c client now status error)
    unfolding apply
    health-Does CollectionStatus.succeeded error = allows.breaks (States.success now)
    health-Does CollectionStatus.running error = allows.stays
    health-Does CollectionStatus.budget_deferred error = allows.breaks (States.release now)
    health-Does CollectionStatus.rate_limited error = allows.breaks (States.release now)
    health-Does CollectionStatus.failed error = fail-Does CollectionStatus.failed "failed" error
    health-Does CollectionStatus.timed_out error =
        fail-Does CollectionStatus.timed_out "timed_out" error
    health-Does CollectionStatus.cancelled error =
        fail-Does CollectionStatus.cancelled "cancelled" error
    health-Does CollectionStatus.start_uncertain error =
        fail-Does CollectionStatus.start_uncertain "start_uncertain" error
    health-Does CollectionStatus.dataset_failed error =
        fail-Does CollectionStatus.dataset_failed "dataset_failed" error
    health-Does CollectionStatus.poll_failed error =
        fail-Does CollectionStatus.poll_failed "poll_failed" error
    health-Does CollectionStatus.auth_failed error =
        fail-Does CollectionStatus.auth_failed "auth_failed" error

    pub record_health-Does :
        (k : IncrementalCollection) → Does R allows (record_collection_health c client now k)
    unfolding record_collection_health
    record_health-Does k =
        Does-if R allows c.meter_requests _ _ (health-Does k.status k.error) allows.stays

    pub resume_all-Does :
        (runs : List SourceRun) (r : Report) → Does R allows (Loop.resume_all c client now runs r)
    unfolding Loop.resume_all
    resume_all-Does [] r = allows.stays
    resume_all-Does (run ∷ runs) r =
        Does->>= R allows _ _ (resume-Does c.settings client now run)
          (λ k. Does->>= R allows _ _ (record_health-Does k) (λ u. resume_all-Does runs _))

    pub recover_all-Does :
        (runs : List SourceRun) (r : Report) → Does R allows (Loop.recover_all c client now runs r)
    unfolding Loop.recover_all
    recover_all-Does [] r = allows.stays
    recover_all-Does (run ∷ runs) r =
        Does->>= R allows _ _ (record_health-Does _) (λ u. recover_all-Does runs _)

    pub claim-Does : (scope : QueryScope) → Does R allows (Loop.claim c client now scope)
    unfolding Loop.claim step
    claim-Does scope =
        allows.runs
          (claim scope.query_id c.worker_id now c.settings.incremental_query_lease_minutes)

    pub start_allowed-Does : Does R allows (Loop.start_allowed c client now)
    unfolding Loop.start_allowed apply
    start_allowed-Does =
        Does-if R allows c.meter_requests _ _ (allows.breaks (States.start now)) allows.stays
