-- ===== src/Ledger/Observations/Once.antt =====
-- In how many events a listing is new to a scope.
use chc_rental.Base.{
  ℕ, String, ◌≡◌, refl, ◌∙◌, Bool, true, false, ◌&&◌, List, [], ◌∷◌, arith, Bool-cases,
  Option-cases, inl, inr, str_eq, eq_iff, eq_refl,
}
use chc_rental.Base.Table.{find_where, any_where, All, All-append}
use chc_rental.Base.Table.Distinct.{
  Distinct, Distinct-append, any_where-append, any_where_mono, any_where-All, All-map,
  find_where-any,
}
use chc_rental.Ledger.{Ledger, SourceRun, Observation, ListingEventRow}
use chc_rental.Ledger.Runs.{has_run, has_query}
use chc_rental.Ledger.Observations.{
  ObservationInput, is_new_type, is_succeeded, is_observation_of, in_scope, seen_in_scope,
  scope_seen, event_type_of, insert_observation, new_observation, new_event, record_new,
  persisted_event, record_item, record_items, establish, record_run, is_baseline_run,
  record_observations,
}
use chc_rental.Ledger.Observations.Replay.{
  Accepted, accept, refuse_run, refuse_status, refuse_scope,
}
use chc_rental.Ledger.Observations.Persisted.{
  record_item-fresh, record_item-old, record_item-tables,
}

-- Two events that call one listing new in one scope.
abbrev pub both_new : ListingEventRow → ListingEventRow → Bool
both_new e f =
    (str_eq e.query_id f.query_id && str_eq e.identity_key f.identity_key)
    && (is_new_type e.event_type && is_new_type f.event_type)

abbrev IsSeen : Ledger → ListingEventRow → Type 0
IsSeen l e = any_where (seen_in_scope e.query_id e.identity_key l.source_runs) l.observations ≡ true

-- Every event is of a listing that was observed in its scope, and is new there once at most.
pub record IsValid (l : Ledger) : Type 0 where
  pub seen : All (IsSeen l) l.listing_events
  pub once : Distinct both_new l.listing_events

module _ (b : Bool) (run : SourceRun) (now : ℕ) (i : ObservationInput) (l : Ledger) where
  observed_more :
      (p : Observation → Bool)
      → any_where p l.observations ≡ true
      → any_where p (insert_observation run.run_id i now l.observations) ≡ true
  unfolding insert_observation
  observed_more p h =
      elim (Bool-cases (any_where (is_observation_of run.run_id i) l.observations)) [
        | inl there ↦ rw there h
        | inr missing ↦
            rw missing
              (any_where-append p l.observations (new_observation run.run_id i now) ∙ rw h refl)
      ]

  observed_now :
      in_scope run.query_id l.source_runs (new_observation run.run_id i now) ≡ true
      → any_where
          (seen_in_scope run.query_id i.identity_key l.source_runs)
          (insert_observation run.run_id i now l.observations)
        ≡ true
  unfolding insert_observation in_scope
  observed_now own = elim (Bool-cases (any_where (is_observation_of run.run_id i) l.observations)) [
    | inl there ↦ rw there (
        any_where_mono (is_observation_of run.run_id i)
          (seen_in_scope run.query_id i.identity_key l.source_runs) l.observations
          (λ o hit.
            let e : o.run_id ≡ run.run_id = (eq_iff o.run_id run.run_id).0 (ground arith) in
            rw e (ground (arith, own)))
          there)
    | inr missing ↦ rw missing (
        any_where-append (seen_in_scope run.query_id i.identity_key l.source_runs) l.observations
          (new_observation run.run_id i now)
        ∙ rw (own, eq_refl i.identity_key) (ground arith))
  ]

  new_other :
      (e : ListingEventRow)
      → IsSeen l e
      → both_new e (new_event run i now (event_type_of b run.query_id i l)) ≡ false
  unfolding event_type_of scope_seen
  new_other e before =
      elim (Bool-cases (str_eq e.query_id run.query_id && str_eq e.identity_key i.identity_key)) [
        | inr other ↦ ground arith
        | inl same ↦
            let q : e.query_id ≡ run.query_id = (eq_iff e.query_id run.query_id).0 (ground arith) in
            let k : e.identity_key ≡ i.identity_key =
              (eq_iff e.identity_key i.identity_key).0 (ground arith) in
            let known : any_where (seen_in_scope run.query_id i.identity_key l.source_runs)
                  l.observations
                ≡ true =
              rw (q, k) at before in
            rw known (ground arith)
      ]

  -- A listing that is new now was not new in an earlier event of the scope.
  new_once :
      All (IsSeen l) l.listing_events
      → any_where
          (λ e. both_new e (new_event run i now (event_type_of b run.query_id i l)))
          l.listing_events
        ≡ false
  new_once seen =
      any_where-All _ l.listing_events
        (All-map l.listing_events (λ e before. new_other e before) seen)

module _ (run : SourceRun) (now : ℕ) where
  record_new-IsValid :
      (b : Bool) (i : ObservationInput) (l : Ledger)
      → in_scope run.query_id l.source_runs (new_observation run.run_id i now) ≡ true
      → IsValid l
      → IsValid (record_new b run now i l)
  unfolding record_new
  record_new-IsValid b i l own h = record {
    seen =
        All-append _ l.listing_events (new_event run i now (event_type_of b run.query_id i l))
          (All-map l.listing_events (λ e before. observed_more b run now i l _ before) h.seen)
          (observed_now b run now i l own);
    once =
        Distinct-append both_new l.listing_events
          (new_event run i now (event_type_of b run.query_id i l)) (new_once b run now i l h.seen)
          h.once;
  }

  record_item-IsValid :
      (b : Bool) (i : ObservationInput) (l : Ledger)
      → in_scope run.query_id l.source_runs (new_observation run.run_id i now) ≡ true
      → IsValid l
      → IsValid (record_item b run now i l).1
  record_item-IsValid b i l own h = elim (Option-cases (persisted_event run.run_id i l)) [
    | inl fresh ↦ rw (record_item-fresh b run now i l fresh) (record_new-IsValid b i l own h)
    | inr (e, at_e) ↦ rw (record_item-old b run now i l e at_e) h
  ]

  -- The run is of its scope, whatever it observes.
  abbrev IsOwn : Ledger → Type 0
  IsOwn l =
      any_where (λ r. str_eq r.run_id run.run_id && str_eq r.query_id run.query_id) l.source_runs
      ≡ true

  record_items-IsValid :
      (b : Bool) (items : List ObservationInput) (l : Ledger)
      → IsOwn l
      → IsValid l
      → IsValid (record_items b run now items l).1
  unfolding record_items
  record_items-IsValid b [] l own h = h
  record_items-IsValid b (i ∷ items) l own h =
      let l₁ = (record_item b run now i l).1 in
      let own₁ : IsOwn l₁ = rw ((record_item-tables b run now i l).0) own in
      record_items-IsValid b items l₁ own₁ (record_item-IsValid b i l (unfold in_scope in own) h)

  establish-IsValid :
      (b : Bool) (k : String) (l : Ledger) → IsValid l → IsValid (establish b k now l)
  unfolding establish
  establish-IsValid true k l h = record { seen = h.seen; once = h.once }
  establish-IsValid false k l h = h

-- Every call of `record_observations`, whether it returns or raises, keeps the invariant: a listing
-- is reported as new in a scope by one event at most, over all runs of the scope.
pub record_observations-IsValid :
    (run_id : String) (items : List ObservationInput) (now : ℕ) (l : Ledger)
    → IsValid l
    → IsValid (record_observations run_id items now l).1
record_observations-IsValid run_id items now l h =
    elim (Option-cases (find_where (has_run run_id) l.source_runs)) [
      | inl e ↦ rw (refuse_run run_id items now l e) h
      | inr (run, e) ↦ elim (Bool-cases (is_succeeded run.status)) [
        | inr status ↦ rw (refuse_status run_id items now l run e status) h
        | inl status ↦ elim (Option-cases (find_where (has_query run.query_id) l.query_scopes)) [
          | inl missing ↦ rw (refuse_scope run_id items now l run e status missing) h
          | inr (q, there) ↦
              let a : Accepted run_id l run q = record {
                run_found = e;
                run_done = status;
                scope_found = there;
              } in
              let own : IsOwn run now l =
                find_where-any (has_run run_id) _ l.source_runs run e
                  (rw (eq_refl run.run_id, eq_refl run.query_id) refl) in
              rw (accept run_id items now l run q a) (
                unfold record_run in
                establish-IsValid run now (is_baseline_run q) run.query_id _
                  (record_items-IsValid run now (is_baseline_run q) items l own h))
        ]
      ]
    ]
