-- ===== src/Ledger/Runs/Scopes.antt =====
-- The methods of src/chc_rental/event_store.py on query scopes.
use chc_rental.Base.{
  ℕ, ◌+◌, ◌*◌, String, Bool, true, false, ◌&&◌, ◌||◌, not, Option, none, some, List, [], ◌∷◌, ◌++◌,
  ltb, ◌==◌, null_or_le, null_or_lt, str_eq, if◌then◌else◌,
}
use chc_rental.Base.Table.{update_where, count_where, rows_where, any_where, ordered_by, take}
use chc_rental.Base.Str.{str_leb}
use chc_rental.Ledger.{Ledger, QueryScope, BaselineState}

abbrev pub has_query : String → QueryScope → Bool
has_query query_id q = str_eq q.query_id query_id

-- A scope as the planner hands it over.
pub record Scope : Type 0 where
  pub query_id : String
  pub source : String
  pub query_json : String

-- `query_id IN (…)`
unfoldable pub is_planned : List Scope → String → Bool
is_planned [] query_id = false
is_planned (s ∷ scopes) query_id = str_eq s.query_id query_id || is_planned scopes query_id

abbrev pub retire_row : ℕ → QueryScope → QueryScope
retire_row now q = record q { active = false; retired_at = some now; updated_at = now }

abbrev pub is_retired : List Scope → QueryScope → Bool
is_retired scopes q = not (is_planned scopes q.query_id) && q.active

-- The row of a scope that is new.
abbrev pub new_scope : ℕ → Scope → QueryScope
new_scope now s = record {
  query_id = s.query_id;
  source = s.source;
  query_json = s.query_json;
  baseline_state = BaselineState.pending;
  baseline_established_at = none;
  last_due_at = none;
  last_success_at = none;
  next_due_at = some now;
  consecutive_failures = 0;
  active = true;
  retired_at = none;
  lease_owner = none;
  lease_until = none;
  created_at = now;
  updated_at = now;
}

abbrev pub refresh_row : ℕ → Scope → QueryScope → QueryScope
refresh_row now s q = record q {
  source = s.source;
  query_json = s.query_json;
  active = true;
  retired_at = none;
  updated_at = now;
}

-- `INSERT … ON CONFLICT(query_id) DO UPDATE`
unfoldable pub upsert_scope : ℕ → Scope → List QueryScope → List QueryScope
upsert_scope now s rows =
    if any_where (has_query s.query_id) rows
    then update_where (has_query s.query_id) (refresh_row now s) rows
    else rows ++ new_scope now s ∷ []

unfoldable pub upsert_scopes : ℕ → List Scope → List QueryScope → List QueryScope
upsert_scopes now [] rows = rows
upsert_scopes now (s ∷ scopes) rows = upsert_scopes now scopes (upsert_scope now s rows)

-- With no scope at all every active row is retired, which `is_retired []` says too.
unfoldable pub sync_query_scopes : List Scope → ℕ → Ledger → Ledger
sync_query_scopes scopes now l = record l {
  query_scopes =
      upsert_scopes now scopes (update_where (is_retired scopes) (retire_row now) l.query_scopes);
}

-- `next_due_at IS NULL OR next_due_at <= ?` and `lease_until IS NULL OR lease_until < ?`
abbrev pub is_due_scope : ℕ → QueryScope → Bool
is_due_scope now q = q.active && null_or_le q.next_due_at now && null_or_lt q.lease_until now

-- `COALESCE(next_due_at, created_at)`
abbrev pub due_at : QueryScope → ℕ
due_at q = elim q.next_due_at [ none ↦ q.created_at | some t ↦ t ]

abbrev pub due_before : QueryScope → QueryScope → Bool
due_before q r = ltb (due_at q) (due_at r) || due_at q == due_at r && str_leb q.query_id r.query_id

abbrev pub limited {ℓ} : {A : Type ℓ} → Option ℕ → List A → List A
limited none xs = xs
limited (some n) xs = take n xs

unfoldable pub due_query_scopes : ℕ → Option ℕ → Ledger → List QueryScope
due_query_scopes now limit l =
    limited limit (ordered_by due_before (rows_where (is_due_scope now) l.query_scopes))

abbrev pub minutes : ℕ → ℕ
minutes n = n * 60_000_000

abbrev pub lease_row : String → ℕ → ℕ → QueryScope → QueryScope
lease_row owner now lease_minutes q = record q {
  lease_owner = some owner;
  lease_until = some (now + minutes lease_minutes);
  updated_at = now;
  last_due_at = some now;
}

abbrev pub is_claimable : String → ℕ → QueryScope → Bool
is_claimable query_id now q = has_query query_id q && is_due_scope now q

unfoldable pub claim_query_scope : String → String → ℕ → ℕ → Ledger → Bool × Ledger
claim_query_scope query_id owner now lease_minutes l =
    let p = is_claimable query_id now in
    (
      count_where p l.query_scopes == 1,
      record l { query_scopes = update_where p (lease_row owner now lease_minutes) l.query_scopes },
    )

abbrev pub defer_row : ℕ → ℕ → QueryScope → QueryScope
defer_row now next_due q = record q {
  lease_owner = none;
  lease_until = none;
  next_due_at = some next_due;
  updated_at = now;
}

unfoldable pub defer_query_scope : String → ℕ → ℕ → Ledger → Ledger
defer_query_scope query_id now next_due l = record l {
  query_scopes = update_where (has_query query_id) (defer_row now next_due) l.query_scopes;
}

abbrev pub release_row : ℕ → ℕ → Bool → QueryScope → QueryScope
release_row now next_due true q = record q {
  lease_owner = none;
  lease_until = none;
  last_success_at = some now;
  next_due_at = some next_due;
  consecutive_failures = 0;
  updated_at = now;
}
release_row now next_due false q = record q {
  lease_owner = none;
  lease_until = none;
  next_due_at = some next_due;
  consecutive_failures = q.consecutive_failures + 1;
  updated_at = now;
}

unfoldable pub release_query_scope : String → ℕ → ℕ → Bool → Ledger → Ledger
release_query_scope query_id now next_due ok_ l = record l {
  query_scopes = update_where (has_query query_id) (release_row now next_due ok_) l.query_scopes;
}
