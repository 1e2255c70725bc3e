-- ===== src/Ledger/Runs/Sync.antt =====
-- What `sync_query_scopes` does to the scopes that are planned and to those that are not.
use chc_rental.Base.{
  ℕ, String, ◌≡◌, refl, ◌∙◌, true, false, ◌||◌, List, [], ◌∷◌, arith, Bool-cases, inl, inr, eq_iff,
  eq_refl, if◌then◌else◌,
}
use chc_rental.Base.Table.{any_where, All, All-append, All-after_update}
use chc_rental.Base.Table.Distinct.{
  All-any_where, All-map, All-zip, any_where-update_where, any_where-append,
}
use chc_rental.Ledger.{Ledger, QueryScope}
use chc_rental.Ledger.Runs.{
  has_query, Scope, is_planned, retire_row, is_retired, new_scope, refresh_row, upsert_scope,
  upsert_scopes, sync_query_scopes,
}
use chc_rental.Ledger.Runs.Columns.{keeps_upserts}

-- An active row is a planned one; a row of the scopes seen so far is active.
abbrev ActiveIf : List Scope → List Scope → QueryScope → Type 0
ActiveIf scopes seen q =
    (q.active ≡ true → is_planned scopes q.query_id ≡ true)
    × (is_planned seen q.query_id ≡ true → q.active ≡ true)

active_refresh :
    (scopes seen : List Scope) (now : ℕ) (s : Scope) (q : QueryScope)
    → is_planned scopes s.query_id ≡ true
    → ActiveIf scopes seen q
    → ActiveIf scopes (s ∷ seen) (if has_query s.query_id q then refresh_row now s q else q)
unfolding is_planned
active_refresh scopes seen now s q planned h = elim (Bool-cases (has_query s.query_id q)) [
  | inl own ↦
      let e : q.query_id ≡ s.query_id = (eq_iff q.query_id s.query_id).0 own in
      rw own (λ a. rw e planned, λ p. refl)
  | inr other ↦
      rw other
        (h.0, λ p. h.1 (ground (arith, eq_iff s.query_id q.query_id, eq_iff q.query_id s.query_id)))
]

retired_active :
    (scopes : List Scope) (now : ℕ) (q : QueryScope)
    → ActiveIf scopes [] (if is_retired scopes q then retire_row now q else q)
retired_active scopes now q = elim (Bool-cases (is_planned scopes q.query_id)) [
  | inl planned ↦ rw planned (λ a. planned, λ p. unfold is_planned in ground arith)
  | inr other ↦ rw other (λ a. ground arith, λ p. unfold is_planned in ground arith)
]

all_rows : (rows : List QueryScope) → All (λ q. Unit {0}) rows
all_rows [] = tt
all_rows (q ∷ rows) = (tt, all_rows rows)

active_upsert :
    (scopes seen : List Scope) (now : ℕ) (s : Scope) (rows : List QueryScope)
    → is_planned scopes s.query_id ≡ true
    → All (ActiveIf scopes seen) rows
    → All (ActiveIf scopes (s ∷ seen)) (upsert_scope now s rows)
unfolding upsert_scope is_planned
active_upsert scopes seen now s rows planned h =
    elim (Bool-cases (any_where (has_query s.query_id) rows)) [
      | inl there ↦ rw there (
          All-after_update (ActiveIf scopes seen) (ActiveIf scopes (s ∷ seen))
            (has_query s.query_id) (refresh_row now s) rows
            (λ q before. active_refresh scopes seen now s q planned before) h)
      | inr missing ↦ rw missing (
          All-append (ActiveIf scopes (s ∷ seen)) rows (new_scope now s)
            (All-map rows
              (λ q before. (
                before.0.0,
                λ p. before.0.1 (
                    ground (
                      arith,
                      before.1,
                      eq_iff s.query_id q.query_id,
                      eq_iff q.query_id s.query_id,
                    )),
              ))
              (All-zip (ActiveIf scopes seen) (λ q. has_query s.query_id q ≡ false) rows h
                (All-any_where (has_query s.query_id) rows missing)))
            (λ a. planned, λ p. refl))
    ]

active_upserts :
    (scopes seen rest : List Scope) (now : ℕ) (rows : List QueryScope)
    → All (λ s. is_planned scopes s.query_id ≡ true) rest
    → ((k : String) → is_planned scopes k ≡ true → (is_planned seen k || is_planned rest k) ≡ true)
    → All (ActiveIf scopes seen) rows
    → All (λ q. q.active ≡ is_planned scopes q.query_id) (upsert_scopes now rest rows)
unfolding upsert_scopes is_planned
active_upserts scopes seen [] now rows planned covers h =
    All-map rows (λ q before. ground (arith, before.0, before.1, covers q.query_id)) h
active_upserts scopes seen (s ∷ rest) now rows planned covers h =
    active_upserts scopes (s ∷ seen) rest now (upsert_scope now s rows) planned.1
      (λ k p. ground (arith, covers k p)) (active_upsert scopes seen now s rows planned.0 h)

planned_more :
    (s : Scope) (scopes rest : List Scope)
    → All (λ r. is_planned scopes r.query_id ≡ true) rest
    → All (λ r. is_planned (s ∷ scopes) r.query_id ≡ true) rest
unfolding is_planned
planned_more s scopes rest h = All-map rest (λ r p. ground arith) h

planned_self : (scopes : List Scope) → All (λ s. is_planned scopes s.query_id ≡ true) scopes
unfolding is_planned
planned_self [] = tt
planned_self (s ∷ scopes) =
    (rw (eq_refl s.query_id) refl, planned_more s scopes scopes (planned_self scopes))

upsert_there :
    (now : ℕ) (s : Scope) (rows : List QueryScope)
    → any_where (has_query s.query_id) (upsert_scope now s rows) ≡ true
unfolding upsert_scope
upsert_there now s rows = elim (Bool-cases (any_where (has_query s.query_id) rows)) [
  | inl there ↦ rw there (
      any_where-update_where (has_query s.query_id) (has_query s.query_id) (refresh_row now s) rows
        (λ q. refl)
      ∙ there)
  | inr missing ↦ rw missing (
      any_where-append (has_query s.query_id) rows (new_scope now s)
      ∙ rw (missing, eq_refl s.query_id) refl)
]

upserts_there :
    (now : ℕ) (scopes : List Scope) (rows : List QueryScope)
    → All (λ s. any_where (has_query s.query_id) (upsert_scopes now scopes rows) ≡ true) scopes
unfolding upsert_scopes
upserts_there now [] rows = tt
upserts_there now (s ∷ scopes) rows = (
  (keeps_upserts now scopes (upsert_scope now s rows)).1 s.query_id (upsert_there now s rows),
  upserts_there now scopes (upsert_scope now s rows),
)

-- After a sync a row is active exactly if it is of a planned scope, and every planned scope has one.
pub sync_active :
    (scopes : List Scope) (now : ℕ) (l : Ledger)
    → All
        (λ q. q.active ≡ is_planned scopes q.query_id)
        (sync_query_scopes scopes now l).query_scopes
      × All
          (λ s.
            any_where (has_query s.query_id) (sync_query_scopes scopes now l).query_scopes ≡ true)
          scopes
unfolding sync_query_scopes
sync_active scopes now l = (
  active_upserts scopes [] scopes now _ (planned_self scopes) (λ k p. unfold is_planned in p)
      (All-after_update (λ q. Unit {0}) (ActiveIf scopes []) (is_retired scopes) (retire_row now)
        l.query_scopes (λ q u. unfold is_planned in retired_active scopes now q)
        (all_rows l.query_scopes)),
  upserts_there now scopes _,
)
