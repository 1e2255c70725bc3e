-- ===== src/Ledger/Runs/Columns.antt =====
-- What an update of the scopes keeps of the invariant of query scopes and source runs.
use chc_rental.Base.{
  ℕ, String, ◌≡◌, refl, ◌∙◌, Bool, true, false, ◌&&◌, List, [], ◌∷◌, Bool-cases, inl, inr, is_none,
  str_eq,
}
use chc_rental.Base.Table.{update_where, any_where, All}
use chc_rental.Base.Table.Distinct.{
  Distinct, any_where-update_where, any_where-append, All-map, Distinct-update_where,
  Distinct-append,
}
use chc_rental.Ledger.{Ledger, empty, QueryScope, SourceRun, RunStatus, succeeded}
use chc_rental.Ledger.Runs.{
  has_query, Scope, new_scope, refresh_row, upsert_scope, upsert_scopes, is_open_run,
}
use chc_rental.Ledger.Runs.Held.{same_query}

abbrev pub same_run : SourceRun → SourceRun → Bool
same_run r s = str_eq r.run_id s.run_id

-- Two runs of one scope that are both open.
abbrev pub both_open : SourceRun → SourceRun → Bool
both_open r s = str_eq r.query_id s.query_id && (is_open_run r.status && is_open_run s.status)

abbrev is_success : RunStatus → Bool
is_success succeeded = true
is_success _ = false

-- A run has a time of finish exactly when it is not open, and only a success is processed.
abbrev pub IsSound : SourceRun → Type 0
IsSound r =
    (is_none r.finished_at ≡ is_open_run r.status)
    × (is_none r.processed_at ≡ false → is_success r.status ≡ true)

abbrev pub HasScope : List QueryScope → SourceRun → Type 0
HasScope scopes r = any_where (has_query r.query_id) scopes ≡ true

pub record IsValid (l : Ledger) : Type 0 where
  pub unique_queries : Distinct same_query l.query_scopes
  pub unique_runs : Distinct same_run l.source_runs
  pub one_open : Distinct both_open l.source_runs
  pub sound : All IsSound l.source_runs
  pub has_scope : All (HasScope l.query_scopes) l.source_runs

pub IsValid-empty : IsValid empty
IsValid-empty = record {
  unique_queries = tt;
  unique_runs = tt;
  one_open = tt;
  sound = tt;
  has_scope = tt;
}

-- Scopes are changed, but not their ids, and none goes.
abbrev pub KeepsScopes : List QueryScope → List QueryScope → Type 0
KeepsScopes rows rows' =
    (Distinct same_query rows → Distinct same_query rows')
    × ((k : String) → any_where (has_query k) rows ≡ true → any_where (has_query k) rows' ≡ true)

pub keeps-IsValid :
    (l l' : Ledger)
    → l'.source_runs ≡ l.source_runs
    → KeepsScopes l.query_scopes l'.query_scopes
    → IsValid l
    → IsValid l'
keeps-IsValid l l' same keeps h = record {
  unique_queries = keeps.0 h.unique_queries;
  unique_runs = rw same h.unique_runs;
  one_open = rw same h.one_open;
  sound = rw same h.sound;
  has_scope = rw same (All-map l.source_runs (λ r. keeps.1 r.query_id) h.has_scope);
}

pub keeps_update :
    (p : QueryScope → Bool) (f : QueryScope → QueryScope) (rows : List QueryScope)
    → ((q : QueryScope) → (f q).query_id ≡ q.query_id)
    → KeepsScopes rows (update_where p f rows)
keeps_update p f rows id = (
  Distinct-update_where same_query p f rows (λ q r. rw id) (λ q r. rw id),
  λ k there. any_where-update_where (has_query k) p f rows (λ q. rw id) ∙ there,
)

pub keeps_upsert :
    (now : ℕ) (s : Scope) (rows : List QueryScope) → KeepsScopes rows (upsert_scope now s rows)
unfolding upsert_scope
keeps_upsert now s rows = elim (Bool-cases (any_where (has_query s.query_id) rows)) [
  | inl there ↦ rw there (keeps_update (has_query s.query_id) (refresh_row now s) rows (λ q. refl))
  | inr missing ↦ rw missing (
    Distinct-append same_query rows (new_scope now s) missing,
    λ k there. any_where-append (has_query k) rows (new_scope now s) ∙ rw there refl,
  )
]

pub keeps_upserts :
    (now : ℕ) (scopes : List Scope) (rows : List QueryScope)
    → KeepsScopes rows (upsert_scopes now scopes rows)
unfolding upsert_scopes
keeps_upserts now [] rows = (λ d. d, λ k there. there)
keeps_upserts now (s ∷ scopes) rows =
    let one = keeps_upsert now s rows in
    let rest = keeps_upserts now scopes (upsert_scope now s rows) in
    (λ d. rest.0 (one.0 d), λ k there. rest.1 k (one.1 k there))
