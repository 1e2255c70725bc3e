-- ===== src/Ledger/Runs/Cadence.antt =====
-- What `sync_query_scopes` keeps of the scopes that are known.
use chc_rental.Base.{
  ℕ, String, ◌≡◌, refl, ◌∙◌, Bool, Option, some, List, [], ◌∷◌, Bool-cases, inl, inr,
}
use chc_rental.Base.Table.{
  update_where, find_where, any_where, find_where-update_where, find_where-append,
}
use chc_rental.Ledger.{Ledger, QueryScope}
use chc_rental.Ledger.Runs.{
  has_query, Scope, retire_row, is_retired, new_scope, refresh_row, upsert_scope, upsert_scopes,
  sync_query_scopes,
}

-- What a sync leaves alone in the row of a scope.
pub record SameCadence (q q' : QueryScope) : Type 0 where
  pub query : q'.query_id ≡ q.query_id
  pub baseline : q'.baseline_state ≡ q.baseline_state
  pub due : q'.next_due_at ≡ q.next_due_at
  pub success : q'.last_success_at ≡ q.last_success_at
  pub failures : q'.consecutive_failures ≡ q.consecutive_failures
  pub owner : q'.lease_owner ≡ q.lease_owner
  pub until : q'.lease_until ≡ q.lease_until
  pub created : q'.created_at ≡ q.created_at

abbrev pub CadenceIn : QueryScope → Option QueryScope → Type 0
CadenceIn q o = (q' : QueryScope) × (o ≡ some q') × SameCadence q q'

same_cadence : (q : QueryScope) → SameCadence q q
same_cadence q = record {
  query = refl;
  baseline = refl;
  due = refl;
  success = refl;
  failures = refl;
  owner = refl;
  until = refl;
  created = refl;
}

cadence_twice : (q r s : QueryScope) → SameCadence q r → SameCadence r s → SameCadence q s
cadence_twice q r s h k = record {
  query = k.query ∙ h.query;
  baseline = k.baseline ∙ h.baseline;
  due = k.due ∙ h.due;
  success = k.success ∙ h.success;
  failures = k.failures ∙ h.failures;
  owner = k.owner ∙ h.owner;
  until = k.until ∙ h.until;
  created = k.created ∙ h.created;
}

module _ (k : String) where
  cadence_update :
      (p : QueryScope → Bool) (f : QueryScope → QueryScope) (rows : List QueryScope)
      (q : QueryScope)
      → ((r : QueryScope) → SameCadence r (f r))
      → find_where (has_query k) rows ≡ some q
      → CadenceIn q (find_where (has_query k) (update_where p f rows))
  cadence_update p f rows q same e =
      let moved =
        find_where-update_where (has_query k) p f rows (λ r hit. rw ((same r).query) refl) in
      elim (Bool-cases (p q)) [
        | inl hit ↦ (f q, moved ∙ rw (e, hit) refl, same q)
        | inr miss ↦ (q, moved ∙ rw (e, miss) refl, same_cadence q)
      ]

  cadence_upsert :
      (now : ℕ) (s : Scope) (rows : List QueryScope) (q : QueryScope)
      → find_where (has_query k) rows ≡ some q
      → CadenceIn q (find_where (has_query k) (upsert_scope now s rows))
  unfolding upsert_scope
  cadence_upsert now s rows q e = elim (Bool-cases (any_where (has_query s.query_id) rows)) [
    | inl there ↦ rw there (
        cadence_update (has_query s.query_id) (refresh_row now s) rows q
          (λ r. record {
            query = refl;
            baseline = refl;
            due = refl;
            success = refl;
            failures = refl;
            owner = refl;
            until = refl;
            created = refl;
          })
          e)
    | inr missing ↦
        rw missing
          (q, find_where-append (has_query k) rows (new_scope now s) ∙ rw e refl, same_cadence q)
  ]

  cadence_upserts :
      (now : ℕ) (scopes : List Scope) (rows : List QueryScope) (q : QueryScope)
      → find_where (has_query k) rows ≡ some q
      → CadenceIn q (find_where (has_query k) (upsert_scopes now scopes rows))
  unfolding upsert_scopes
  cadence_upserts now [] rows q e = (q, e, same_cadence q)
  cadence_upserts now (s ∷ scopes) rows q e =
      let (r, at_r, same_r) = cadence_upsert now s rows q e in
      let (t, at_t, same_t) = cadence_upserts now scopes (upsert_scope now s rows) r at_r in
      (t, at_t, cadence_twice q r t same_r same_t)

-- A scope that is known before a sync is there after it with the same baseline, due time, failures
-- and lease, whether the sync plans it or retires it.
pub sync_cadence :
    (k : String) (scopes : List Scope) (now : ℕ) (l : Ledger) (q : QueryScope)
    → find_where (has_query k) l.query_scopes ≡ some q
    → CadenceIn q (find_where (has_query k) (sync_query_scopes scopes now l).query_scopes)
unfolding sync_query_scopes
sync_cadence k scopes now l q e =
    let (r, at_r, same_r) =
      cadence_update k (is_retired scopes) (retire_row now) l.query_scopes q
        (λ r. record {
          query = refl;
          baseline = refl;
          due = refl;
          success = refl;
          failures = refl;
          owner = refl;
          until = refl;
          created = refl;
        })
        e in
    let (t, at_t, same_t) = cadence_upserts k now scopes _ r at_r in
    (t, at_t, cadence_twice q r t same_r same_t)
