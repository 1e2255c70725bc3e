-- ===== src/Ledger/Outbox/Operator.antt =====
-- The outbox methods of src/chc_rental/event_store.py that take a row out of the usual way: retry,
-- promotion, cancelling and alerts of terminal failures.
use chc_rental.Base.{
  ℕ, String, Bool, true, false, ◌&&◌, none, some, List, [], ◌∷◌, ◌==◌, is_none, str_eq,
  if◌then◌else◌,
}
use chc_rental.Base.Table.{count_where, rows_where, find_where}
use chc_rental.Base.Str.{truncate}
use chc_rental.Base.Raise.{Result, ok, err, alert_store, value}
use chc_rental.Models.{Listing}
use chc_rental.Ledger.{
  Ledger, OutboxRow, OutboxStatus, shadow, pending, sending, failed, retry_wait, uncertain,
  cancelled, AuditAction,
}
use chc_rental.Ledger.Outbox.Rows.{has_id, contains, update_outbox, audited, id_and_status}

abbrev pub retry_row : ℕ → OutboxRow → OutboxRow
retry_row now r = record r {
  status = retry_wait;
  not_before = now;
  claimed_at = none;
  last_error = none;
  last_error_class = none;
  operator_alerted_at = none;
}

unfoldable pub retry_failed_outbox : ℕ → ℕ → Ledger → Result (Unit {0}) × Ledger
retry_failed_outbox outbox_id now l =
    let p = id_and_status outbox_id failed in
    if count_where p l.outbox == 1
    then (
      ok tt,
      audited (AuditAction.retry_failed_outbox outbox_id) now (update_outbox p (retry_row now) l),
    )
    else (err alert_store, l)

-- `outbox_listing_json`
unfoldable pub outbox_listing : ℕ → Ledger → Result Listing
outbox_listing outbox_id l = elim (find_where (has_id outbox_id) l.outbox) [
  | none ↦ err alert_store
  | some r ↦
      elim (find_where
        (λ v. str_eq v.identity_key r.identity_key && str_eq v.version_hash r.version_hash)
        l.listing_versions) [ none ↦ err alert_store | some v ↦ ok v.canonical_json ]
]

abbrev pub promote_row : OutboxRow → OutboxRow
promote_row r = record r { status = pending; last_error = none }

unfoldable pub promote_shadow : ℕ → ℕ → Ledger → Bool × Ledger
promote_shadow outbox_id now l =
    let p = id_and_status outbox_id shadow in
    let n = count_where p l.outbox in
    let l' = update_outbox p promote_row l in
    (n == 1, if n == 0 then l' else audited (AuditAction.promote_canary_outbox outbox_id) now l')

-- `status IN ('shadow', 'pending', 'sending', 'retry_wait', 'failed')`
abbrev pub is_actionable : OutboxStatus → Bool
is_actionable shadow = true
is_actionable pending = true
is_actionable sending = true
is_actionable retry_wait = true
is_actionable failed = true
is_actionable _ = false

abbrev pub cancel_row : String → OutboxRow → OutboxRow
cancel_row reason r = record r {
  status = cancelled;
  claimed_at = none;
  last_error_class = some "ineligible";
  last_error = some (truncate 500 reason);
}

abbrev pub is_cancellable : ℕ → OutboxRow → Bool
is_cancellable outbox_id r = has_id outbox_id r && is_actionable r.status

unfoldable pub cancel_outbox : ℕ → String → Ledger → Bool × Ledger
cancel_outbox outbox_id reason l =
    let p = is_cancellable outbox_id in
    (count_where p l.outbox == 1, update_outbox p (cancel_row reason) l)

abbrev pub is_cancellable_for : List ℕ → OutboxRow → Bool
is_cancellable_for telegram_ids r = contains telegram_ids r.telegram_id && is_actionable r.status

-- With the ledger on disk and its table operator_audit there.
unfoldable pub cancel_recipient_outbox : List ℕ → ℕ → String → Ledger → Result ℕ × Ledger
cancel_recipient_outbox [] now reason l = (ok 0, l)
cancel_recipient_outbox (t ∷ ts) now reason l =
    let p = is_cancellable_for (t ∷ ts) in
    let n = count_where p l.outbox in
    let l' = update_outbox p (cancel_row reason) l in
    if contains (t ∷ ts) 0 then (err value, l) else (
      ok n,
      if n == 0
          then l'
          else audited (AuditAction.cancel_recipient_outbox (t ∷ ts) n (truncate 500 reason)) now
              l',
    )

abbrev pub is_terminal_failure : OutboxStatus → Bool
is_terminal_failure failed = true
is_terminal_failure uncertain = true
is_terminal_failure _ = false

unfoldable pub terminal_failures_needing_alert : Ledger → List OutboxRow
terminal_failures_needing_alert l =
    rows_where (λ r. is_terminal_failure r.status && is_none r.operator_alerted_at) l.outbox

abbrev pub alerted_row : ℕ → OutboxRow → OutboxRow
alerted_row now r = record r { operator_alerted_at = some now }

abbrev pub is_listed_failure : List ℕ → OutboxRow → Bool
is_listed_failure outbox_ids r = contains outbox_ids r.outbox_id && is_terminal_failure r.status

unfoldable pub mark_terminal_failure_alerted : List ℕ → ℕ → Ledger → Ledger
mark_terminal_failure_alerted outbox_ids now l =
    update_outbox (is_listed_failure outbox_ids) (alerted_row now) l
