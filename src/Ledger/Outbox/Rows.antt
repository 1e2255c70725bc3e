-- ===== src/Ledger/Outbox/Rows.antt =====
-- What the methods on the outbox of src/chc_rental/event_store.py share, and `outbox_records`.
use chc_rental.Base.{
  ℕ, String, Bool, true, false, ◌&&◌, ◌||◌, Option, none, some, List, [], ◌∷◌, ◌++◌, ◌==◌, str_eq,
}
use chc_rental.Base.Table.{update_where, rows_where}
use chc_rental.Ledger.{
  Ledger, OutboxRow, OutboxStatus, shadow, pending, sending, sent, failed, retry_wait, uncertain,
  cancelled, AuditAction,
}

abbrev pub status_eq : OutboxStatus → OutboxStatus → Bool
status_eq shadow shadow = true
status_eq pending pending = true
status_eq sending sending = true
status_eq sent sent = true
status_eq failed failed = true
status_eq retry_wait retry_wait = true
status_eq uncertain uncertain = true
status_eq cancelled cancelled = true
status_eq _ _ = false

-- `outbox_id=?`
abbrev pub has_id : ℕ → OutboxRow → Bool
has_id outbox_id r = r.outbox_id == outbox_id

abbrev pub has_key : String → OutboxRow → Bool
has_key key r = str_eq r.idempotency_key key

-- `telegram_id IN (…)`, `outbox_id IN (…)`
unfoldable pub contains : List ℕ → ℕ → Bool
contains [] a = false
contains (x ∷ xs) a = x == a || contains xs a

abbrev pub has_status : Option OutboxStatus → OutboxRow → Bool
has_status none r = true
has_status (some s) r = status_eq r.status s

unfoldable pub outbox_records : Option OutboxStatus → Ledger → List OutboxRow
outbox_records status l = rows_where (has_status status) l.outbox

-- An UPDATE of the table outbox.
abbrev pub update_outbox : (OutboxRow → Bool) → (OutboxRow → OutboxRow) → Ledger → Ledger
update_outbox p f l = record l { outbox = update_where p f l.outbox }

abbrev pub audited : AuditAction → ℕ → Ledger → Ledger
audited a now l = record l {
  operator_audit = l.operator_audit ++ record { action = a; created_at = now } ∷ [];
}

-- `WHERE outbox_id=? AND status=?`
abbrev pub id_and_status : ℕ → OutboxStatus → OutboxRow → Bool
id_and_status outbox_id s r = has_id outbox_id r && status_eq r.status s
