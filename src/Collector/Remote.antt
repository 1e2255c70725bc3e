-- ===== src/Collector/Remote.antt =====
-- `_process_remote`, `_resume` and `_recover_succeeded` of src/chc_rental/incremental.py.
use chc_rental.Base.{
  ℕ, ◌+◌, min, String, append, Bool, true, false, not, Option, none, some, List, [], length, leb,
  is_none, str_eq, if◌then◌else◌,
}
use chc_rental.Base.Raise.{value}
use chc_rental.Ledger.{SourceRun, RunStatus}
use chc_rental.Ledger.Runs.{Finish, finish_source_run, release_query_scope}
use chc_rental.Models.{Settings}
use chc_rental.Collector.State.{
  Raw, Remote, answer, auth_error, rate_limit_error, source_error, ApifyStatus, ApifyRunState,
  CollectionStatus, IncrementalCollection, Client, M, pure, raise, ◌>>◌, update_ledger, call_ledger,
  minutes,
}

-- A collection with no records.
abbrev pub collection : String → Option String → CollectionStatus → IncrementalCollection
collection query_id run_id status = record {
  query_id = query_id;
  run_id = run_id;
  status = status;
  records = [];
  raw_result_count = 0;
  truncated = false;
  cost_usd = none;
  error = none;
}

-- `f"{type(exc).__name__}: {exc}"`
abbrev pub auth_text : String → String
auth_text message = append "SourceAuthError: " message

abbrev pub rate_limit_text : String → String
rate_limit_text message = append "SourceRateLimitError: " message

abbrev pub source_text : String → String → String
source_text name message = append name (append ": " message)

-- A finish that says nothing but its status, an error and the charge.
abbrev pub failure : RunStatus → Option String → Option String → Option ℕ → Finish
failure status error_class error_message charge = record {
  status = status;
  result_count = none;
  truncated = false;
  error_class = error_class;
  error_message = error_message;
  charge_usd = charge;
  charge_known = not (is_none charge);
  default_dataset_id = none;
}

abbrev pub interval : Settings → ℕ
interval st = minutes st.zillow_incremental_interval_minutes

-- `min(interval, timedelta(minutes=60))`
abbrev pub short_interval : Settings → ℕ
short_interval st = min (interval st) (minutes 60)

-- The run is finished, and its scope is given back until a time.
unfoldable pub settle : SourceRun → Finish → ℕ → ℕ → Bool → M (Unit {0})
settle run f now next_due succeeded_ = do
  call_ledger (finish_source_run run.run_id f now)
  update_ledger (release_query_scope run.query_id now next_due succeeded_)

-- The id of the column and of the collection of a run.
abbrev pub of_run : SourceRun → CollectionStatus → Option ℕ → Option String → IncrementalCollection
of_run run status cost error = record (collection run.query_id (some run.run_id) status) {
  cost_usd = cost;
  error = error;
}

-- `a or b` of texts that may be None.
abbrev pub or_text : Option String → Option String → Option String
or_text none other = other
or_text (some t) other = if str_eq t "" then other else some t

-- The dataset is read, and its records are brought in their canonical form.
abbrev pub and_normalized :
    (List Raw → Remote (List Raw)) → Remote (List Raw) → Remote (List Raw × List Raw)
and_normalized normalize (answer raw) = elim (normalize raw) [
  | answer records ↦ answer (raw, records)
  | auth_error m ↦ auth_error m
  | rate_limit_error r m ↦ rate_limit_error r m
  | source_error n m ↦ source_error n m
]
and_normalized normalize (auth_error m) = auth_error m
and_normalized normalize (rate_limit_error r m) = rate_limit_error r m
and_normalized normalize (source_error n m) = source_error n m

unfoldable pub read_dataset : Client → String → Remote (List Raw × List Raw)
read_dataset c dataset_id = and_normalized c.normalize_dataset (c.get_dataset dataset_id)

-- What a run is called whose dataset could not be read.
unfoldable pub unread : SourceRun → Option ℕ → Remote (List Raw × List Raw) → IncrementalCollection
unread run cost (answer d) = of_run run CollectionStatus.dataset_failed cost none
unread run cost (auth_error m) = of_run run CollectionStatus.auth_failed cost (some (auth_text m))
unread run cost (rate_limit_error r m) =
    of_run run CollectionStatus.rate_limited cost (some (rate_limit_text m))
unread run cost (source_error n m) =
    of_run run CollectionStatus.dataset_failed cost (some (source_text n m))

abbrev pub succeeded_collection :
    SourceRun → Bool → Option ℕ → List Raw → List Raw → IncrementalCollection
succeeded_collection run truncated cost raw records =
    record (of_run run CollectionStatus.succeeded cost none) {
      records = records;
      raw_result_count = length raw;
      truncated = truncated;
    }

module _ (st : Settings) (c : Client) (now : ℕ) where
  unfoldable pub on_failed :
      SourceRun
      → ApifyRunState
      → RunStatus × CollectionStatus × String × String
      → M IncrementalCollection
  on_failed run remote (terminal, status, error_class, text) = do
    settle run (failure terminal (some error_class) remote.status_message remote.usage_total_usd)
        now (now + short_interval st) false
    pure (of_run run status remote.usage_total_usd (or_text remote.status_message (some text)))

  abbrev missing_dataset : String
  missing_dataset = "successful Apify run had no default dataset id"

  unfoldable pub on_missing_dataset : SourceRun → ApifyRunState → M IncrementalCollection
  on_missing_dataset run remote = do
    settle run
        (failure RunStatus.failed (some "missing_dataset") (some missing_dataset)
          remote.usage_total_usd)
        now (now + short_interval st) false
    pure (of_run run CollectionStatus.failed remote.usage_total_usd (some missing_dataset))

  unfoldable pub on_dataset :
      SourceRun → ApifyRunState → String → Remote (List Raw × List Raw) → M IncrementalCollection
  on_dataset run remote dataset_id (answer (raw, records)) =
      let truncated = leb c.results_limit (length raw) in
      do
        settle run
            (record (failure RunStatus.succeeded none none remote.usage_total_usd) {
              result_count = some (length raw);
              truncated = truncated;
              default_dataset_id = some dataset_id;
            })
            now (now + interval st) true
        pure (succeeded_collection run truncated remote.usage_total_usd raw records)
  on_dataset run remote dataset_id other = pure (unread run remote.usage_total_usd other)

  unfoldable pub on_succeeded : SourceRun → ApifyRunState → M IncrementalCollection
  on_succeeded run remote = elim (or_text remote.default_dataset_id run.default_dataset_id) [
    | none ↦ on_missing_dataset run remote
    | some d ↦
        if str_eq d ""
        then on_missing_dataset run remote
        else on_dataset run remote d (read_dataset c d)
  ]

  abbrev pub still_running : SourceRun → ApifyRunState → IncrementalCollection
  still_running run remote = of_run run CollectionStatus.running remote.usage_total_usd none

  -- `_process_remote` of a run that is there.
  unfoldable pub process_run : SourceRun → ApifyRunState → M IncrementalCollection
  process_run run remote = elim remote.status [
    | ApifyStatus.not_terminal t ↦ pure (still_running run remote)
    | ApifyStatus.succeeded ↦ on_succeeded run remote
    | ApifyStatus.failed ↦
        on_failed run remote (RunStatus.failed, CollectionStatus.failed, "apify_failed", "FAILED")
    | ApifyStatus.timed_out ↦
        on_failed run remote
          (RunStatus.timed_out, CollectionStatus.timed_out, "apify_timed-out", "TIMED-OUT")
    | ApifyStatus.aborted ↦
        on_failed run remote
          (RunStatus.cancelled, CollectionStatus.cancelled, "apify_aborted", "ABORTED")
  ]

  unfoldable pub process_remote : Option SourceRun → ApifyRunState → M IncrementalCollection
  process_remote none remote = raise value
  process_remote (some run) remote = process_run run remote

  unfoldable pub on_polled : SourceRun → Remote ApifyRunState → M IncrementalCollection
  on_polled run (answer remote) = process_run run remote
  on_polled run (auth_error m) =
      pure (of_run run CollectionStatus.auth_failed none (some (auth_text m)))
  on_polled run (rate_limit_error r m) =
      pure (of_run run CollectionStatus.rate_limited none (some (rate_limit_text m)))
  on_polled run (source_error n m) =
      pure (of_run run CollectionStatus.poll_failed none (some (source_text n m)))

  -- A reservation that outlived its process, with no id of a remote run.
  unfoldable pub on_lost : SourceRun → M IncrementalCollection
  on_lost run = do
    settle run
        (failure RunStatus.failed (some "start_uncertain")
          (some "local reservation survived without a persisted Apify run id") none)
        now (now + interval st) false
    pure (
        of_run run CollectionStatus.start_uncertain none
          (some "reserved run had no persisted Apify run id"))

  abbrev pub poll : SourceRun → String → M IncrementalCollection
  poll run id = if str_eq id "" then on_lost run else on_polled run (c.get_run id)

  unfoldable pub resume : SourceRun → M IncrementalCollection
  resume run = elim run.status [
    | RunStatus.reserved ↦ on_lost run
    | _ ↦ elim run.apify_run_id [ none ↦ on_lost run | some id ↦ poll run id ]
  ]

  abbrev pub recovered : SourceRun → Remote (List Raw × List Raw) → IncrementalCollection
  recovered run (answer (raw, records)) =
      succeeded_collection run run.truncated run.charge_usd raw records
  recovered run other = unread run run.charge_usd other

  abbrev pub no_dataset : SourceRun → IncrementalCollection
  no_dataset run =
      of_run run CollectionStatus.dataset_failed run.charge_usd
        (some "unprocessed successful run has no dataset id")

  unfoldable pub recover_succeeded : SourceRun → IncrementalCollection
  recover_succeeded run = elim run.default_dataset_id [
    | none ↦ no_dataset run
    | some d ↦ if str_eq d "" then no_dataset run else recovered run (read_dataset c d)
  ]
