-- ===== src/Ledger/Runs/Runs.antt =====
-- The methods of src/chc_rental/event_store.py on source runs, and the reset of a baseline.
use chc_rental.Base.{
  ℕ, String, Bool, true, false, ◌&&◌, ◌||◌, not, Option, none, some, List, [], ◌∷◌, ◌++◌, ltb, leb,
  ◌==◌, is_none, str_eq, if◌then◌else◌,
}
use chc_rental.Base.Table.{update_where, count_where, rows_where, find_where, any_where, ordered_by}
use chc_rental.Base.Str.{str_leb, opt_eq}
use chc_rental.Base.Raise.{Result, ok, err, alert_store, value, integrity}
use chc_rental.Ledger.{
  Ledger, AuditAction, QueryScope, reset_pending, SourceRun, RunStatus, reserved, running,
  succeeded, ExecutionMode, live, fixture, legacy_unknown,
}
use chc_rental.Ledger.Runs.Scopes.{has_query}

abbrev pub has_run : String → SourceRun → Bool
has_run run_id r = str_eq r.run_id run_id

-- `status IN ('reserved', 'running')`
abbrev pub is_open_run : RunStatus → Bool
is_open_run reserved = true
is_open_run running = true
is_open_run _ = false

abbrev pub mode_allowed : ExecutionMode → Bool
mode_allowed live = true
mode_allowed fixture = true
mode_allowed legacy_unknown = false

-- The arguments of `create_source_run` but the time.
pub record RunInput : Type 0 where
  pub run_id : String
  pub query_id : String
  pub source : String
  pub execution_mode : ExecutionMode
  pub input_fingerprint : String

abbrev pub new_run : RunInput → ℕ → SourceRun
new_run i now = record {
  run_id = i.run_id;
  query_id = i.query_id;
  source = i.source;
  execution_mode = i.execution_mode;
  apify_run_id = none;
  default_dataset_id = none;
  status = reserved;
  input_fingerprint = i.input_fingerprint;
  started_at = now;
  finished_at = none;
  result_count = none;
  truncated = false;
  error_class = none;
  error_message = none;
  charge_usd = none;
  charge_known = false;
  processed_at = none;
  created_at = now;
  updated_at = now;
}

-- The primary key, the foreign key into query_scopes and the unique index on the open run of a
-- scope, idx_source_runs_one_open_per_scope.
unfoldable pub run_insertable : RunInput → Ledger → Bool
run_insertable i l =
    not (any_where (has_run i.run_id) l.source_runs)
    && any_where (has_query i.query_id) l.query_scopes
    && not (any_where (λ r. str_eq r.query_id i.query_id && is_open_run r.status) l.source_runs)

abbrev pub with_run : RunInput → ℕ → Ledger → Ledger
with_run i now l = record l { source_runs = l.source_runs ++ new_run i now ∷ [] }

unfoldable pub source_run : String → Ledger → Option SourceRun
source_run run_id l = find_where (has_run run_id) l.source_runs

-- `found` after the INSERT; that it is none is the defensive branch of the method.
abbrev pub found_or_raise : Option SourceRun → Result SourceRun
found_or_raise none = err alert_store
found_or_raise (some r) = ok r

-- The INSERT and the SELECT after it, in a mode that is allowed.
unfoldable pub insert_run : RunInput → ℕ → Ledger → Result SourceRun × Ledger
insert_run i now l =
    if run_insertable i l
    then (found_or_raise (source_run i.run_id (with_run i now l)), with_run i now l)
    else (err alert_store, l)

unfoldable pub create_source_run : RunInput → ℕ → Ledger → Result SourceRun × Ledger
create_source_run i now l =
    if not (mode_allowed i.execution_mode) then (err value, l) else insert_run i now l

abbrev pub started_before : SourceRun → SourceRun → Bool
started_before r s =
    ltb r.started_at s.started_at || r.started_at == s.started_at && str_leb r.run_id s.run_id

unfoldable pub open_source_runs : Ledger → List SourceRun
open_source_runs l =
    ordered_by started_before (rows_where (λ r. is_open_run r.status) l.source_runs)

abbrev pub is_unprocessed : SourceRun → Bool
is_unprocessed r = elim r.status [ succeeded ↦ is_none r.processed_at | _ ↦ false ]

-- NULL stands first.
abbrev pub null_ltb : Option ℕ → Option ℕ → Bool
null_ltb none none = false
null_ltb none (some t) = true
null_ltb (some s) none = false
null_ltb (some s) (some t) = ltb s t

abbrev pub finished_before : SourceRun → SourceRun → Bool
finished_before r s =
    null_ltb r.finished_at s.finished_at
    || not (null_ltb s.finished_at r.finished_at) && str_leb r.run_id s.run_id

unfoldable pub unprocessed_source_runs : Ledger → List SourceRun
unprocessed_source_runs l = ordered_by finished_before (rows_where is_unprocessed l.source_runs)

-- `WHERE run_id=? AND status='reserved'`
abbrev pub is_reserved : String → SourceRun → Bool
is_reserved run_id r = has_run run_id r && elim r.status [ reserved ↦ true | _ ↦ false ]

abbrev pub attach_row : ℕ → String → Option String → SourceRun → SourceRun
attach_row now apify_run_id dataset r = record r {
  apify_run_id = some apify_run_id;
  default_dataset_id = dataset;
  status = running;
  updated_at = now;
}

-- The id of another run in the UNIQUE column apify_run_id.
unfoldable pub apify_taken : String → String → Ledger → Bool
apify_taken run_id apify_run_id l =
    any_where (λ r. opt_eq r.apify_run_id (some apify_run_id) && not (has_run run_id r))
      l.source_runs

abbrev pub with_attached : String → ℕ → String → Option String → Ledger → Ledger
with_attached run_id now apify_run_id dataset l = record l {
  source_runs =
      update_where (is_reserved run_id) (attach_row now apify_run_id dataset) l.source_runs;
}

unfoldable pub attach_apify_run :
    String → String → Option String → ℕ → Ledger → Result (Unit {0}) × Ledger
attach_apify_run run_id apify_run_id dataset now l =
    if count_where (is_reserved run_id) l.source_runs == 1
    then if apify_taken run_id apify_run_id l
      then (err integrity, l)
      else (ok tt, with_attached run_id now apify_run_id dataset l)
    else (err alert_store, l)

-- The arguments of `finish_source_run` but the run and the time.
pub record Finish : Type 0 where
  pub status : RunStatus
  pub result_count : Option ℕ
  pub truncated : Bool
  pub error_class : Option String
  pub error_message : Option String
  pub charge_usd : Option ℕ
  pub charge_known : Bool
  pub default_dataset_id : Option String

abbrev pub or_kept : Option String → Option String → Option String
or_kept none old = old
or_kept (some d) old = some d

abbrev pub finish_row : ℕ → Finish → SourceRun → SourceRun
finish_row now f r = record r {
  status = f.status;
  finished_at = some now;
  result_count = f.result_count;
  truncated = f.truncated;
  error_class = f.error_class;
  error_message = f.error_message;
  charge_usd = f.charge_usd;
  charge_known = f.charge_known;
  default_dataset_id = or_kept f.default_dataset_id r.default_dataset_id;
  updated_at = now;
}

abbrev pub is_finishable : String → SourceRun → Bool
is_finishable run_id r = has_run run_id r && is_open_run r.status

unfoldable pub finish_source_run : String → Finish → ℕ → Ledger → Result (Unit {0}) × Ledger
finish_source_run run_id f now l =
    let p = is_finishable run_id in
    if is_open_run f.status then (err value, l) else (
      if count_where p l.source_runs == 1 then ok tt else err alert_store,
      record l { source_runs = update_where p (finish_row now f) l.source_runs },
    )

abbrev pub processed_row : ℕ → SourceRun → SourceRun
processed_row now r = record r { processed_at = some now; updated_at = now }

abbrev pub is_processable : String → SourceRun → Bool
is_processable run_id r = has_run run_id r && is_unprocessed r

-- That more than one row changes is the defensive branch of the method; the change is committed.
unfoldable pub mark_source_run_processed : String → ℕ → Ledger → Result (Unit {0}) × Ledger
mark_source_run_processed run_id now l =
    let p = is_processable run_id in
    (
      if leb (count_where p l.source_runs) 1 then ok tt else err alert_store,
      record l { source_runs = update_where p (processed_row now) l.source_runs },
    )

abbrev pub reset_row : ℕ → QueryScope → QueryScope
reset_row now q = record q {
  baseline_state = reset_pending;
  baseline_established_at = none;
  updated_at = now;
}

-- `in_flight`
abbrev pub is_in_flight : String → SourceRun → Bool
is_in_flight query_id r = str_eq r.query_id query_id && (is_open_run r.status || is_unprocessed r)

-- The reason is the one that is written down, already stripped and not blank.
unfoldable pub reset_query_baseline : String → ℕ → String → Ledger → Result (Unit {0}) × Ledger
reset_query_baseline query_id now reason l =
    let p = has_query query_id in
    if any_where (is_in_flight query_id) l.source_runs
    then (err alert_store, l)
    else if count_where p l.query_scopes == 1
    then (
      ok tt,
      record l {
        query_scopes = update_where p (reset_row now) l.query_scopes;
        operator_audit =
            l.operator_audit
            ++ record { action = AuditAction.reset_baseline query_id reason; created_at = now }
              ∷ [];
      },
    )
    else (err alert_store, l)
