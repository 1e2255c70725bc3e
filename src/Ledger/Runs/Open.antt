-- ===== src/Ledger/Runs/Open.antt =====
-- The invariant of query scopes and source runs: keys, open runs, and the columns of a run.
use chc_rental.Base.{
  ℕ, String, ◌≡◌, refl, Bool, true, ◌&&◌, Option, List, [], ◌∷◌, arith, Bool-cases, inl, inr, ◌==◌,
  str_eq, if-snd,
}
use chc_rental.Base.Table.{update_where, count_where, any_where, All-update_where, All-append}
use chc_rental.Base.Table.Distinct.{
  any_where-le, Distinct-update_where, Distinct-update_where-le, Distinct-append,
}
use chc_rental.Ledger.{Ledger, SourceRun}
use chc_rental.Ledger.Runs.{
  has_query, retire_row, is_retired, sync_query_scopes, is_claimable, lease_row, claim_query_scope,
  defer_row, defer_query_scope, release_row, release_query_scope, is_open_run, RunInput, new_run,
  run_insertable, with_run, insert_run, create_source_run, is_reserved, attach_row, with_attached,
  apify_taken, attach_apify_run, Finish, finish_row, is_finishable, finish_source_run,
  is_processable, processed_row, mark_source_run_processed, reset_row, is_in_flight,
  reset_query_baseline,
}
use chc_rental.Ledger.Runs.Steps.{
  Op, sync, claim, defer, release, create, attach, finish, processed, reset, step, steps,
}
use chc_rental.Ledger.Runs.Columns.{
  HasScope, IsSound, IsValid, both_open, keeps-IsValid, keeps_update, keeps_upserts, same_run,
}

-- Runs are changed: not their ids or scopes, and none is opened.
updated-IsValid :
    (p : SourceRun → Bool) (f : SourceRun → SourceRun) (l l' : Ledger)
    → l'.query_scopes ≡ l.query_scopes
    → l'.source_runs ≡ update_where p f l.source_runs
    → ((r : SourceRun) → ((f r).run_id ≡ r.run_id) × ((f r).query_id ≡ r.query_id))
    → ((r : SourceRun) → p r ≡ true → is_open_run (f r).status ≡ true → is_open_run r.status ≡ true)
    → ((r : SourceRun) → IsSound r → p r ≡ true → IsSound (f r))
    → IsValid l
    → IsValid l'
updated-IsValid p f l l' scopes runs ids opens sound h = record {
  unique_queries = rw scopes h.unique_queries;
  unique_runs = rw runs (
      Distinct-update_where same_run p f l.source_runs (λ r s. rw ((ids r).0) refl)
        (λ r s. rw ((ids s).0) refl) h.unique_runs);
  one_open = rw runs (
      Distinct-update_where-le both_open p f l.source_runs
        (λ r s hit both. ground (arith, (ids r).1, opens r))
        (λ r s hit both. ground (arith, (ids s).1, opens s)) h.one_open);
  sound = rw runs (All-update_where IsSound p f l.source_runs sound h.sound);
  has_scope =
      rw (runs, scopes)
        (All-update_where (HasScope l.query_scopes) p f l.source_runs
          (λ r there hit. rw ((ids r).1) there) h.has_scope);
}

with_run-IsValid :
    (i : RunInput) (now : ℕ) (l : Ledger)
    → run_insertable i l ≡ true
    → IsValid l
    → IsValid (with_run i now l)
unfolding run_insertable
with_run-IsValid i now l fits h = record {
  unique_queries = h.unique_queries;
  unique_runs = Distinct-append same_run l.source_runs (new_run i now) (ground arith) h.unique_runs;
  one_open =
      Distinct-append both_open l.source_runs (new_run i now)
        (any_where-le (λ r. str_eq r.query_id i.query_id && is_open_run r.status) _ l.source_runs
          (λ r both. ground arith) (ground arith))
        h.one_open;
  sound = All-append IsSound l.source_runs (new_run i now) h.sound (refl, λ h. cc);
  has_scope =
      All-append (HasScope l.query_scopes) l.source_runs (new_run i now) h.has_scope (ground arith);
}

module _ (l : Ledger) (h : IsValid l) where
  insert_run-IsValid : (i : RunInput) (now : ℕ) → IsValid (insert_run i now l).1
  unfolding insert_run
  insert_run-IsValid i now = elim (Bool-cases (run_insertable i l)) [
    | inl fits ↦ rw fits (with_run-IsValid i now l fits h)
    | inr clash ↦ rw clash h
  ]

  create-IsValid : (i : RunInput) (now : ℕ) → IsValid (create_source_run i now l).1
  unfolding create_source_run
  create-IsValid i now = if-snd IsValid _ _ _ h (insert_run-IsValid i now)

  attach-IsValid :
      (run apify : String) (dataset : Option String) (now : ℕ)
      → IsValid (attach_apify_run run apify dataset now l).1
  unfolding attach_apify_run
  attach-IsValid run apify dataset now =
      let done =
        updated-IsValid (is_reserved run) (attach_row now apify dataset) l
          (with_attached run now apify dataset l) refl refl (λ r. (refl, refl))
          (λ r hit open_. ground arith) (λ r sound hit. ground arith) h in
      elim (Bool-cases (count_where (is_reserved run) l.source_runs == 1)) [
        | inl one ↦ rw one (
            if-snd IsValid (apify_taken run apify l) (_, l)
              (_, with_attached run now apify dataset l) h done)
        | inr not_one ↦ rw not_one h
      ]

  finish-IsValid : (run : String) (f : Finish) (now : ℕ) → IsValid (finish_source_run run f now l).1
  unfolding finish_source_run
  finish-IsValid run f now = elim (Bool-cases (is_open_run f.status)) [
    | inl open_ ↦ rw open_ h
    | inr closed_ ↦ rw closed_ (
        updated-IsValid (is_finishable run) (finish_row now f) l _ refl refl (λ r. (refl, refl))
          (λ r hit open_. ground arith) (λ r sound hit. ground arith) h)
  ]

  processed-IsValid : (run : String) (now : ℕ) → IsValid (mark_source_run_processed run now l).1
  unfolding mark_source_run_processed
  processed-IsValid run now =
      updated-IsValid (is_processable run) (processed_row now) l _ refl refl (λ r. (refl, refl))
        (λ r hit open_. open_) (λ r sound hit. ground arith) h

  reset-IsValid :
      (query : String) (now : ℕ) (reason : String)
      → IsValid (reset_query_baseline query now reason l).1
  unfolding reset_query_baseline
  reset-IsValid query now reason =
      elim (Bool-cases (any_where (is_in_flight query) l.source_runs)) [
        | inl busy ↦ rw busy h
        | inr free ↦ elim (Bool-cases (count_where (has_query query) l.query_scopes == 1)) [
          | inl one ↦
              rw (free, one)
                (keeps-IsValid l _ refl
                  (keeps_update (has_query query) (reset_row now) l.query_scopes (λ q. refl)) h)
          | inr not_one ↦ rw (free, not_one) h
        ]
      ]

-- Every call on query scopes and source runs, whether it returns or raises, keeps the invariant; in
-- particular no scope ever has two open runs, which the paid provider would both be asked for.
pub run_step-IsValid : (op : Op) (l : Ledger) → IsValid l → IsValid (step op l)
unfolding step sync_query_scopes claim_query_scope defer_query_scope release_query_scope
run_step-IsValid (sync scopes now) l h =
    let retired = keeps_update (is_retired scopes) (retire_row now) l.query_scopes (λ q. refl) in
    let added =
      keeps_upserts now scopes (update_where (is_retired scopes) (retire_row now) l.query_scopes) in
    keeps-IsValid l _ refl (λ d. added.0 (retired.0 d), λ k there. added.1 k (retired.1 k there)) h
run_step-IsValid (claim query owner now m) l h =
    keeps-IsValid l _ refl
      (keeps_update (is_claimable query now) (lease_row owner now m) l.query_scopes (λ q. refl)) h
run_step-IsValid (defer query now next_due) l h =
    keeps-IsValid l _ refl
      (keeps_update (has_query query) (defer_row now next_due) l.query_scopes (λ q. refl)) h
run_step-IsValid (release query now next_due ok_) l h =
    keeps-IsValid l _ refl
      (keeps_update (has_query query) (release_row now next_due ok_) l.query_scopes
        (λ q. ground arith))
      h
run_step-IsValid (create i now) l h = create-IsValid l h i now
run_step-IsValid (attach run apify dataset now) l h = attach-IsValid l h run apify dataset now
run_step-IsValid (finish run f now) l h = finish-IsValid l h run f now
run_step-IsValid (processed run now) l h = processed-IsValid l h run now
run_step-IsValid (reset query now reason) l h = reset-IsValid l h query now reason

-- The same of any calls in any order.
pub run_steps-IsValid : (ops : List Op) (l : Ledger) → IsValid l → IsValid (steps ops l)
unfolding steps
run_steps-IsValid [] l h = h
run_steps-IsValid (op ∷ ops) l h = run_steps-IsValid ops (step op l) (run_step-IsValid op l h)
