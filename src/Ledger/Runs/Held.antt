-- ===== src/Ledger/Runs/Held.antt =====
-- Calls that leave the lease on a query scope alone.
use chc_rental.Base.{
  ℕ, ◌≤◌, String, ◌≡◌, refl, ◌∙◌, Bool, true, false, Option, none, some, List, [], ◌∷◌, arith,
  Bool-cases, inl, inr, leb, ◌==◌, str_eq, eq_iff,
}
use chc_rental.Base.Table.{update_where, count_where, any_where, All, All-update_where, All-append}
use chc_rental.Base.Table.Distinct.{any_where-update_where, any_where-append}
use chc_rental.Ledger.{Ledger, QueryScope}
use chc_rental.Ledger.Runs.{
  has_query, Scope, retire_row, is_retired, new_scope, refresh_row, upsert_scope, upsert_scopes,
  sync_query_scopes, is_claimable, is_in_flight, RunInput, insert_run, Finish, lease_row,
  claim_query_scope, defer_row, defer_query_scope, release_row, release_query_scope,
  create_source_run, attach_apify_run, finish_source_run, mark_source_run_processed, reset_row,
  reset_query_baseline,
}
use chc_rental.Ledger.Runs.Steps.{
  Op, sync, claim, defer, release, create, attach, finish, processed, reset, step, steps,
}

-- The lease of a row runs until `t` at least.
abbrev pub is_leased : ℕ → QueryScope → Bool
is_leased t q = elim q.lease_until [ none ↦ false | some u ↦ leb t u ]

abbrev pub same_query : QueryScope → QueryScope → Bool
same_query q r = str_eq q.query_id r.query_id

-- The scope is there, and is leased until `t` at least.
abbrev pub IsHeld : String → ℕ → List QueryScope → Type 0
IsHeld query t rows =
    (any_where (has_query query) rows ≡ true)
    × All (λ q. has_query query q ≡ true → is_leased t q ≡ true) rows

-- A call that may end the lease of a scope.
abbrev pub ends_lease : String → Op → Bool
ends_lease query (defer k now next_due) = str_eq k query
ends_lease query (release k now next_due ok_) = str_eq k query
ends_lease query _ = false

create-scopes :
    (i : RunInput) (now : ℕ) (l : Ledger)
    → (create_source_run i now l).1.query_scopes ≡ l.query_scopes
unfolding create_source_run
create-scopes i now l = unfold insert_run in ground arith

attach-scopes :
    (run apify : String) (dataset : Option String) (now : ℕ) (l : Ledger)
    → (attach_apify_run run apify dataset now l).1.query_scopes ≡ l.query_scopes
unfolding attach_apify_run
attach-scopes run apify dataset now l = ground arith

finish-scopes :
    (run : String) (f : Finish) (now : ℕ) (l : Ledger)
    → (finish_source_run run f now l).1.query_scopes ≡ l.query_scopes
unfolding finish_source_run
finish-scopes run f now l = ground arith

module _ (query : String) (t : ℕ) where
  IsHeld-update :
      (p : QueryScope → Bool) (f : QueryScope → QueryScope) (rows : List QueryScope)
      → ((q : QueryScope) → (f q).query_id ≡ q.query_id)
      → ((q : QueryScope)
          → p q ≡ true
          → has_query query q ≡ true
          → is_leased t q ≡ true
          → is_leased t (f q) ≡ true)
      → IsHeld query t rows
      → IsHeld query t (update_where p f rows)
  IsHeld-update p f rows id keeps h = (
    any_where-update_where (has_query query) p f rows (λ q. rw id) ∙ h.0,
    All-update_where _ p f rows
        (λ q before hit own.
          let o : has_query query q ≡ true = rw id at own in keeps q hit o (before o))
        h.1,
  )

  IsHeld-upsert :
      (now : ℕ) (s : Scope) (rows : List QueryScope)
      → IsHeld query t rows
      → IsHeld query t (upsert_scope now s rows)
  unfolding upsert_scope
  IsHeld-upsert now s rows h = elim (Bool-cases (any_where (has_query s.query_id) rows)) [
    | inl there ↦ rw there (
        IsHeld-update (has_query s.query_id) (refresh_row now s) rows (λ q. refl)
          (λ q hit own leased. leased) h)
    | inr missing ↦ rw missing (
      any_where-append (has_query query) rows (new_scope now s) ∙ ground (arith, h.0),
      All-append _ rows (new_scope now s) h.1 (λ own.
          let same : s.query_id ≡ query = (eq_iff s.query_id query).0 own in
          let gone : any_where (has_query query) rows ≡ false = rw same at missing in
          ground (arith, gone, h.0)),
    )
  ]

  IsHeld-upserts :
      (now : ℕ) (scopes : List Scope) (rows : List QueryScope)
      → IsHeld query t rows
      → IsHeld query t (upsert_scopes now scopes rows)
  unfolding upsert_scopes
  IsHeld-upserts now [] rows h = h
  IsHeld-upserts now (s ∷ scopes) rows h =
      IsHeld-upserts now scopes (upsert_scope now s rows) (IsHeld-upsert now s rows h)

  IsHeld-reset :
      (k : String) (now : ℕ) (reason : String) (l : Ledger)
      → IsHeld query t l.query_scopes
      → IsHeld query t (reset_query_baseline k now reason l).1.query_scopes
  unfolding reset_query_baseline
  IsHeld-reset k now reason l h = elim (Bool-cases (any_where (is_in_flight k) l.source_runs)) [
    | inl busy ↦ rw busy h
    | inr free ↦ elim (Bool-cases (count_where (has_query k) l.query_scopes == 1)) [
      | inl one ↦
          rw (free, one)
            (IsHeld-update (has_query k) (reset_row now) l.query_scopes (λ q. refl)
              (λ q hit own leased. leased) h)
      | inr not_one ↦ rw (free, not_one) h
    ]
  ]

  IsHeld-step :
      (op : Op) (l : Ledger)
      → ends_lease query op ≡ false
      → IsHeld query t l.query_scopes
      → IsHeld query t (step op l).query_scopes
  unfolding step sync_query_scopes claim_query_scope defer_query_scope release_query_scope
      mark_source_run_processed
  IsHeld-step (sync scopes now) l keeps h = IsHeld-upserts now scopes _ (
      IsHeld-update (is_retired scopes) (retire_row now) l.query_scopes (λ q. refl)
        (λ q hit own leased. leased) h)
  IsHeld-step (claim k owner now m) l keeps h =
      IsHeld-update (is_claimable k now) (lease_row owner now m) l.query_scopes (λ q. refl)
        (λ q hit own leased. ground arith) h
  IsHeld-step (defer k now next_due) l keeps h =
      IsHeld-update (has_query k) (defer_row now next_due) l.query_scopes (λ q. refl)
        (λ q hit own leased.
          ground (arith, eq_iff q.query_id k, eq_iff q.query_id query, eq_iff k query))
        h
  IsHeld-step (release k now next_due ok_) l keeps h =
      IsHeld-update (has_query k) (release_row now next_due ok_) l.query_scopes (λ q. ground arith)
        (λ q hit own leased.
          ground (arith, eq_iff q.query_id k, eq_iff q.query_id query, eq_iff k query))
        h
  IsHeld-step (create i now) l keeps h = rw (create-scopes i now l) h
  IsHeld-step (attach run apify dataset now) l keeps h =
      rw (attach-scopes run apify dataset now l) h
  IsHeld-step (finish run f now) l keeps h = rw (finish-scopes run f now l) h
  IsHeld-step (processed run now) l keeps h = h
  IsHeld-step (reset k now reason) l keeps h = IsHeld-reset k now reason l h

  pub IsHeld-steps :
      (ops : List Op) (l : Ledger)
      → All (λ op. ends_lease query op ≡ false) ops
      → IsHeld query t l.query_scopes
      → IsHeld query t (steps ops l).query_scopes
  unfolding steps
  IsHeld-steps [] l keeps h = h
  IsHeld-steps (op ∷ ops) l keeps h =
      IsHeld-steps ops (step op l) keeps.1 (IsHeld-step op l keeps.0 h)

  pub not_claimable :
      (now : ℕ) (rows : List QueryScope)
      → now ≤ t
      → All (λ q. has_query query q ≡ true → is_leased t q ≡ true) rows
      → count_where (is_claimable query now) rows ≡ 0
  unfolding count_where
  not_claimable now [] early h = refl
  not_claimable now (q ∷ rows) early h =
      let here = h.0 in ground (arith, not_claimable now rows early h.1)
