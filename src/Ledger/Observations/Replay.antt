-- ===== src/Ledger/Observations/Replay.antt =====
-- A run that is recorded twice.
use mathlib.Core.Path.{subst}
use chc_rental.Base.{
  ℕ, String, ◌≡◌, refl, sym, ◌∙◌, Bool, true, false, none, some, List, [], ◌∷◌, map, Bool-cases,
  Option-cases, inl, inr,
}
use chc_rental.Base.Table.{find_where, find_where-update_where, find_where-holds}
use chc_rental.Base.Raise.{ok, err, alert_store}
use chc_rental.Ledger.{Ledger, QueryScope, SourceRun, EventType}
use chc_rental.Ledger.Runs.{has_query, has_run}
use chc_rental.Ledger.Observations.{
  ObservationInput, ObservationOutcome, is_succeeded, persisted_event, record_items, establish_row,
  establish, record_run, is_baseline_run, returned, record_observations,
}
use chc_rental.Ledger.Observations.Persisted.{
  Has, Persisted, record_items-Persisted, replay_items, record_items-tables, returned_eq,
}

-- What a call past its three tests has found.
pub record Accepted (run_id : String) (l : Ledger) (run : SourceRun) (q : QueryScope) : Type 0 where
  pub run_found : find_where (has_run run_id) l.source_runs ≡ some run
  pub run_done : is_succeeded run.status ≡ true
  pub scope_found : find_where (has_query run.query_id) l.query_scopes ≡ some q

module _ (run_id : String) (items : List ObservationInput) (now : ℕ) (l : Ledger) where
  pub accept :
      (run : SourceRun) (q : QueryScope)
      → Accepted run_id l run q
      → record_observations run_id items now l
        ≡ returned (record_run (is_baseline_run q) run now items l)
  unfolding record_observations
  accept run q a = rw (a.run_found, a.run_done, a.scope_found, record_observations) refl

  pub refuse_run :
      find_where (has_run run_id) l.source_runs ≡ none
      → record_observations run_id items now l ≡ (err alert_store, l)
  unfolding record_observations
  refuse_run e = rw (e, record_observations) refl

  pub refuse_status :
      (run : SourceRun)
      → find_where (has_run run_id) l.source_runs ≡ some run
      → is_succeeded run.status ≡ false
      → record_observations run_id items now l ≡ (err alert_store, l)
  unfolding record_observations
  refuse_status run e status = rw (e, status, record_observations) refl

  pub refuse_scope :
      (run : SourceRun)
      → find_where (has_run run_id) l.source_runs ≡ some run
      → is_succeeded run.status ≡ true
      → find_where (has_query run.query_id) l.query_scopes ≡ none
      → record_observations run_id items now l ≡ (err alert_store, l)
  unfolding record_observations
  refuse_scope run e status missing = rw (e, status, missing, record_observations) refl

  pub accepted :
      (outcomes : List ObservationOutcome) (l' : Ledger)
      → record_observations run_id items now l ≡ (ok outcomes, l')
      → (run : SourceRun) × (q : QueryScope) × Accepted run_id l run q
        × (record_run (is_baseline_run q) run now items l ≡ (outcomes, l'))
  accepted outcomes l' h = elim (Option-cases (find_where (has_run run_id) l.source_runs)) [
    | inl e ↦ let r = refuse_run e in cc
    | inr (run, e) ↦ elim (Bool-cases (is_succeeded run.status)) [
      | inr status ↦ let r = refuse_status run e status in cc
      | inl status ↦ elim (Option-cases (find_where (has_query run.query_id) l.query_scopes)) [
        | inl missing ↦ let r = refuse_scope run e status missing in cc
        | inr (q, there) ↦
            let a : Accepted run_id l run q = record {
              run_found = e;
              run_done = status;
              scope_found = there;
            } in
            (run, q, a, returned_eq _ outcomes l' (sym (accept run q a) ∙ h))
      ]
    ]
  ]

-- After a run is recorded its scope is established.
established_after :
    (run : SourceRun) (q : QueryScope) (now : ℕ) (l : Ledger)
    → find_where (has_query run.query_id) l.query_scopes ≡ some q
    → (q' : QueryScope) × (find_where
          (has_query run.query_id)
          (establish (is_baseline_run q) run.query_id now l).query_scopes
        ≡ some q')
      × (is_baseline_run q' ≡ false)
unfolding establish
established_after run q now l e = elim (Bool-cases (is_baseline_run q)) [
  | inl first ↦ rw first (
    establish_row now q,
    find_where-update_where (has_query run.query_id) (has_query run.query_id) (establish_row now)
          l.query_scopes (λ r hit. refl)
        ∙ rw (e, find_where-holds (has_query run.query_id) l.query_scopes q e) refl,
    refl,
  )
  | inr done ↦ rw done (q, e, done)
]

establish-runs :
    (b : Bool) (k : String) (now : ℕ) (l : Ledger)
    → (establish b k now l).source_runs ≡ l.source_runs
unfolding establish
establish-runs true k now l = refl
establish-runs false k now l = refl

establish-Has :
    (run : SourceRun) (b : Bool) (k : String) (now : ℕ) (i : ObservationInput) (t : EventType)
    (l : Ledger)
    → Has run l i t
    → Has run (establish b k now l) i t
unfolding persisted_event establish
establish-Has run true k now i t l h = h
establish-Has run false k now i t l h = h

establish-Persisted :
    (run : SourceRun) (b : Bool) (k : String) (now : ℕ) (items : List ObservationInput)
    (outcomes : List ObservationOutcome) (l : Ledger)
    → Persisted run l items outcomes
    → Persisted run (establish b k now l) items outcomes
establish-Persisted run b k now [] [] l h = tt
establish-Persisted run b k now (i ∷ items) (o ∷ outcomes) l h = (
  establish-Has run b k now i o.event_type l h.0,
  establish-Persisted run b k now items outcomes l h.1,
)
establish-Persisted run b k now [] (o ∷ outcomes) l h = absurd h
establish-Persisted run b k now (i ∷ items) [] l h = absurd h

-- What the second call needs of what the first one left.
abbrev Replayable :
    String → List ObservationInput → SourceRun → List ObservationOutcome × Ledger → Type 0
Replayable run_id items run (outcomes, l) =
    Persisted run l items outcomes
    × (q : QueryScope) × Accepted run_id l run q
    × (is_baseline_run q ≡ false)

record_run-Replayable :
    (run_id : String) (items : List ObservationInput) (now : ℕ) (l : Ledger) (run : SourceRun)
    (q : QueryScope)
    → Accepted run_id l run q
    → Replayable run_id items run (record_run (is_baseline_run q) run now items l)
unfolding record_run
record_run-Replayable run_id items now l run q a =
    let b = is_baseline_run q in
    let l₁ = (record_items b run now items l).1 in
    let same = record_items-tables b run now items l in
    let (q', there, done) = established_after run q now l₁ (rw (same.1) (a.scope_found)) in
    (
      establish-Persisted run b run.query_id now items _ l₁
          (record_items-Persisted b run now items l),
      q',
      record {
        run_found = rw (establish-runs b run.query_id now l₁, same.0) (a.run_found);
        run_done = a.run_done;
        scope_found = there;
      },
      done,
    )

record_run-again :
    (run : SourceRun) (items : List ObservationInput) (now : ℕ) (outcomes : List ObservationOutcome)
    (l : Ledger)
    → Persisted run l items outcomes
    → (outcomes' : List ObservationOutcome) × (record_run false run now items l ≡ (outcomes', l))
      × (map (λ o. o.event_type) outcomes' ≡ map (λ o. o.event_type) outcomes)
unfolding record_run establish
record_run-again run items now outcomes l h =
    let (same, types) = replay_items false run now items outcomes l h in
    ((record_items false run now items l).0, rw same refl, types)

-- Recording a run again, at any time, is accepted, writes nothing, and gives every listing the type
-- of event that it got the first time.
pub replay :
    (run_id : String) (items : List ObservationInput) (now now' : ℕ) (l l' : Ledger)
    (outcomes : List ObservationOutcome)
    → record_observations run_id items now l ≡ (ok outcomes, l')
    → (outcomes' : List ObservationOutcome) × (record_observations run_id items now' l'
        ≡ (ok outcomes', l'))
      × (map (λ o. o.event_type) outcomes' ≡ map (λ o. o.event_type) outcomes)
replay run_id items now now' l l' outcomes h =
    let (run, q, a, e) = accepted run_id items now l outcomes l' h in
    let (persisted, q', a', done) =
      subst (Replayable run_id items run) e (record_run-Replayable run_id items now l run q a) in
    let (outcomes', again, types) = record_run-again run items now' outcomes l' persisted in
    (outcomes', accept run_id items now' l' run q' a' ∙ rw (done, again) refl, types)
