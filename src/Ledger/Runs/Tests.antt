-- ===== src/Ledger/Runs/Tests.antt =====
-- Test data for scopes and runs, and their properties at concrete inputs.
use chc_rental.Base.{◌≡◌, refl, true, false, none, some, [], ◌∷◌, arith}
use chc_rental.Base.Table.{find_where, count_where, any_where, All}
use chc_rental.Ledger.{Ledger, empty, QueryScope, SourceRun, succeeded, timed_out, ExecutionMode}
use chc_rental.Ledger.Runs.{
  has_query, has_run, Scope, is_planned, new_scope, claim_query_scope, sync_query_scopes, RunInput,
  new_run, Finish,
}
use chc_rental.Ledger.Runs.Steps.{sync, create, finish, processed, step, steps}
use chc_rental.Ledger.Runs.Open.{run_step-IsValid}
use chc_rental.Ledger.Runs.Columns.{IsValid}
use chc_rental.Ledger.Runs.Lease.{lease_exclusive}
use chc_rental.Ledger.Runs.Life.{KeptIn, finished_kept}
use chc_rental.Ledger.Runs.Sync.{sync_active}
use chc_rental.Ledger.Runs.Cadence.{CadenceIn, sync_cadence}

abbrev pub sample_scope : Scope
sample_scope = record { query_id = "q"; source = "zillow"; query_json = "{}" }

abbrev pub scope_row : QueryScope
scope_row = new_scope 10 sample_scope

abbrev pub sample_run : RunInput
sample_run = record {
  run_id = "r";
  query_id = "q";
  source = "zillow";
  execution_mode = ExecutionMode.live;
  input_fingerprint = "f";
}

abbrev pub run_row : SourceRun
run_row = new_run sample_run 20

abbrev with_scope : Ledger
with_scope = record empty { query_scopes = scope_row ∷ [] }

abbrev with_open : Ledger
with_open = record with_scope { source_runs = run_row ∷ [] }

abbrev pub done_row : SourceRun
done_row = record run_row { status = succeeded; finished_at = some 30 }

abbrev with_done : Ledger
with_done = record with_scope { source_runs = done_row ∷ [] }

with_open-IsValid : IsValid with_open
unfolding any_where
with_open-IsValid = record {
  unique_queries = (refl, tt);
  unique_runs = (refl, tt);
  one_open = (refl, tt);
  sound = ((refl, λ h. ground arith), tt);
  has_scope = (refl, tt);
}

run_step-IsValid_example :
    IsValid (step (create (record sample_run { run_id = "r2" }) 25) with_open)
run_step-IsValid_example =
    run_step-IsValid (create (record sample_run { run_id = "r2" }) 25) with_open with_open-IsValid

claim_won : (claim_query_scope "q" "a" 10 1 with_scope).0 ≡ true
unfolding claim_query_scope count_where
claim_won = refl

lease_exclusive_example :
    claim_query_scope "q" "b" 20 1
      (steps (sync (sample_scope ∷ []) 15 ∷ []) (claim_query_scope "q" "a" 10 1 with_scope).1)
    ≡ (
      false,
      steps (sync (sample_scope ∷ []) 15 ∷ []) (claim_query_scope "q" "a" 10 1 with_scope).1,
    )
lease_exclusive_example =
    lease_exclusive "q" "a" "b" 10 20 1 1 (sync (sample_scope ∷ []) 15 ∷ []) with_scope
      (unfold any_where in (refl, tt)) claim_won (refl, tt) (ground arith)

abbrev late_finish : Finish
late_finish = record {
  status = timed_out;
  result_count = none;
  truncated = false;
  error_class = none;
  error_message = none;
  charge_usd = none;
  charge_known = false;
  default_dataset_id = none;
}

finished_kept_example : KeptIn done_row (
    find_where
      (has_run "r")
      (steps (finish "r" late_finish 40 ∷ processed "r" 41 ∷ []) with_done).source_runs)
finished_kept_example =
    finished_kept (finish "r" late_finish 40 ∷ processed "r" 41 ∷ []) "r" done_row with_done refl
      (unfold find_where in refl)

sync_cadence_example :
    CadenceIn scope_row
      (find_where (has_query "q") (sync_query_scopes [] 50 with_scope).query_scopes)
sync_cadence_example = sync_cadence "q" [] 50 with_scope scope_row (unfold find_where in refl)

sync_active_example :
    All
      (λ q. q.active ≡ is_planned (sample_scope ∷ []) q.query_id)
      (sync_query_scopes (sample_scope ∷ []) 50 with_scope).query_scopes
    × All
        (λ s.
          any_where
            (has_query s.query_id)
            (sync_query_scopes (sample_scope ∷ []) 50 with_scope).query_scopes
          ≡ true)
        (sample_scope ∷ [])
sync_active_example = sync_active (sample_scope ∷ []) 50 with_scope
