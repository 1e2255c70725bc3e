-- ===== src/Ledger/Runs/Life.antt =====
-- The life of a source run.
use chc_rental.Base.{
  ℕ, String, ◌≡◌, refl, ◌∙◌, Bool, true, false, Option, some, List, [], ◌∷◌, arith, Bool-cases, inl,
  inr, ◌==◌, is_none,
}
use chc_rental.Base.Table.{
  update_where, count_where, find_where, find_where-update_where, find_where-append,
}
use chc_rental.Ledger.{Ledger, SourceRun}
use chc_rental.Ledger.Runs.{
  has_run, is_open_run, RunInput, new_run, insert_run, create_source_run, is_reserved, attach_row,
  apify_taken, attach_apify_run, Finish, finish_row, is_finishable, finish_source_run,
  is_processable, processed_row, mark_source_run_processed, sync_query_scopes, claim_query_scope,
  defer_query_scope, release_query_scope, reset_query_baseline,
}
use chc_rental.Ledger.Runs.Steps.{
  Op, sync, claim, defer, release, create, attach, finish, processed, reset, step, steps,
}

-- The same scope, outcome and charge, and the same time of processing once there is one.
pub record Kept (r r' : SourceRun) : Type 0 where
  pub query : r'.query_id ≡ r.query_id
  pub status : r'.status ≡ r.status
  pub finished : r'.finished_at ≡ r.finished_at
  pub count : r'.result_count ≡ r.result_count
  pub charge : r'.charge_usd ≡ r.charge_usd
  pub known : r'.charge_known ≡ r.charge_known
  pub processed : is_none r.processed_at ≡ false → r'.processed_at ≡ r.processed_at

abbrev pub KeptIn : SourceRun → Option SourceRun → Type 0
KeptIn r o = (r' : SourceRun) × (o ≡ some r') × Kept r r'

Kept-same : (r : SourceRun) → Kept r r
Kept-same r = record {
  query = refl;
  status = refl;
  finished = refl;
  count = refl;
  charge = refl;
  known = refl;
  processed = λ h. refl;
}

Kept-twice : (r s t : SourceRun) → Kept r s → Kept s t → Kept r t
Kept-twice r s t h k = record {
  query = k.query ∙ h.query;
  status = k.status ∙ h.status;
  finished = k.finished ∙ h.finished;
  count = k.count ∙ h.count;
  charge = k.charge ∙ h.charge;
  known = k.known ∙ h.known;
  processed = λ p. let e = h.processed p in (k.processed (rw e p)) ∙ e;
}

reset-runs :
    (query : String) (now : ℕ) (reason : String) (l : Ledger)
    → (reset_query_baseline query now reason l).1.source_runs ≡ l.source_runs
unfolding reset_query_baseline
reset-runs query now reason l = ground arith

module _ (k : String) (r : SourceRun) (closed_ : is_open_run r.status ≡ false) where
  Kept-update :
      (p : SourceRun → Bool) (f : SourceRun → SourceRun) (rows : List SourceRun)
      → ((s : SourceRun) → (f s).run_id ≡ s.run_id)
      → (p r ≡ true → Kept r (f r))
      → find_where (has_run k) rows ≡ some r
      → KeptIn r (find_where (has_run k) (update_where p f rows))
  Kept-update p f rows id keeps e =
      let moved = find_where-update_where (has_run k) p f rows (λ s hit. rw id) in
      elim (Bool-cases (p r)) [
        | inl hit ↦ (f r, moved ∙ rw (e, hit) refl, keeps hit)
        | inr miss ↦ (r, moved ∙ rw (e, miss) refl, Kept-same r)
      ]

  kept_insert :
      (i : RunInput) (now : ℕ) (l : Ledger)
      → find_where (has_run k) l.source_runs ≡ some r
      → KeptIn r (find_where (has_run k) (create_source_run i now l).1.source_runs)
  unfolding create_source_run insert_run
  kept_insert i now l e =
      let added = find_where-append (has_run k) l.source_runs (new_run i now) in
      (r, ground arith, Kept-same r)

  kept_attach :
      (run apify : String) (dataset : Option String) (now : ℕ) (l : Ledger)
      → find_where (has_run k) l.source_runs ≡ some r
      → KeptIn r (find_where (has_run k) (attach_apify_run run apify dataset now l).1.source_runs)
  unfolding attach_apify_run
  kept_attach run apify dataset now l e =
      elim (Bool-cases (count_where (is_reserved run) l.source_runs == 1)) [
        | inl one ↦ elim (Bool-cases (apify_taken run apify l)) [
          | inl taken ↦ rw (one, taken) (r, e, Kept-same r)
          | inr free ↦
              rw (one, free)
                (Kept-update (is_reserved run) (attach_row now apify dataset) l.source_runs
                  (λ s. refl) (λ hit. absurd (ground arith)) e)
        ]
        | inr not_one ↦ rw not_one (r, e, Kept-same r)
      ]

  kept_finish :
      (run : String) (f : Finish) (now : ℕ) (l : Ledger)
      → find_where (has_run k) l.source_runs ≡ some r
      → KeptIn r (find_where (has_run k) (finish_source_run run f now l).1.source_runs)
  unfolding finish_source_run
  kept_finish run f now l e = elim (Bool-cases (is_open_run f.status)) [
    | inl open_ ↦ rw open_ (r, e, Kept-same r)
    | inr done ↦ rw done (
        Kept-update (is_finishable run) (finish_row now f) l.source_runs (λ s. refl)
          (λ hit. absurd (ground arith)) e)
  ]

  kept_step :
      (op : Op) (l : Ledger)
      → find_where (has_run k) l.source_runs ≡ some r
      → KeptIn r (find_where (has_run k) (step op l).source_runs)
  unfolding step sync_query_scopes claim_query_scope defer_query_scope release_query_scope
      mark_source_run_processed
  kept_step (sync scopes now) l e = (r, e, Kept-same r)
  kept_step (claim query owner now m) l e = (r, e, Kept-same r)
  kept_step (defer query now next_due) l e = (r, e, Kept-same r)
  kept_step (release query now next_due ok_) l e = (r, e, Kept-same r)
  kept_step (create i now) l e = kept_insert i now l e
  kept_step (attach run apify dataset now) l e = kept_attach run apify dataset now l e
  kept_step (finish run f now) l e = kept_finish run f now l e
  kept_step (processed run now) l e =
      Kept-update (is_processable run) (processed_row now) l.source_runs (λ s. refl)
        (λ hit. record {
          query = refl;
          status = refl;
          finished = refl;
          count = refl;
          charge = refl;
          known = refl;
          processed = λ p. ground arith;
        })
        e
  kept_step (reset query now reason) l e = rw (reset-runs query now reason l) (r, e, Kept-same r)

-- A run that is finished keeps its scope, status, time of finish, count of results and charge under
-- any further calls, and a run that is processed keeps the time of its processing.
pub finished_kept :
    (ops : List Op) (k : String) (r : SourceRun) (l : Ledger)
    → is_open_run r.status ≡ false
    → find_where (has_run k) l.source_runs ≡ some r
    → KeptIn r (find_where (has_run k) (steps ops l).source_runs)
unfolding steps
finished_kept [] k r l closed_ e = (r, e, Kept-same r)
finished_kept (op ∷ ops) k r l closed_ e =
    let (s, at_s, kept_s) = kept_step k r closed_ op l e in
    let (t, at_t, kept_t) = finished_kept ops k s (step op l) (rw (kept_s.status) closed_) at_s in
    (t, at_t, Kept-twice r s t kept_s kept_t)
