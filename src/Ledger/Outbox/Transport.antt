-- ===== src/Ledger/Outbox/Transport.antt =====
-- The outbox methods of src/chc_rental/event_store.py around a send: release, claim, outcome, return
-- and recovery.
use chc_rental.Base.{
  ℕ, ◌+◌, String, Bool, true, false, ◌&&◌, ◌||◌, Option, none, some, List, [], ◌∷◌, ◌++◌, ltb, leb,
  ◌==◌, some_and_lt, if◌then◌else◌,
}
use chc_rental.Base.Table.{update_where, count_where, find_where, any_where}
use chc_rental.Base.Str.{truncate}
use chc_rental.Base.Raise.{Result, ok, err, alert_store, integrity}
use chc_rental.Ledger.{
  Ledger, OutboxRow, OutboxStatus, pending, sending, sent, failed, retry_wait, uncertain,
}
use chc_rental.Ledger.Outbox.Rows.{status_eq, has_id, contains, update_outbox, id_and_status}

abbrev pub release_row : OutboxRow → OutboxRow
release_row r = record r { status = pending }

abbrev pub is_due_retry : ℕ → List ℕ → OutboxRow → Bool
is_due_retry now telegram_ids r =
    status_eq r.status retry_wait && leb r.not_before now && contains telegram_ids r.telegram_id

-- The guard `if not telegram_ids` needs no case: then no row is selected.
unfoldable pub release_due_retries : ℕ → List ℕ → Ledger → ℕ × Ledger
release_due_retries now telegram_ids l =
    let p = is_due_retry now telegram_ids in (count_where p l.outbox, update_outbox p release_row l)

-- `ORDER BY not_before, outbox_id`
abbrev pub before : OutboxRow → OutboxRow → Bool
before r s =
    ltb r.not_before s.not_before || r.not_before == s.not_before && leb r.outbox_id s.outbox_id

abbrev pub earlier : OutboxRow → Option OutboxRow → OutboxRow
earlier r none = r
earlier r (some s) = if before r s then r else s

-- The first of the rows of `p` in that order: `LIMIT 1`.
unfoldable pub first_of_rows : (OutboxRow → Bool) → List OutboxRow → Option OutboxRow
first_of_rows p [] = none
first_of_rows p (r ∷ rs) =
    let rest = first_of_rows p rs in if p r then some (earlier r rest) else rest

-- ` AND outbox_id=?`, if a row was asked for
abbrev pub is_selected : Option ℕ → OutboxRow → Bool
is_selected none r = true
is_selected (some id) r = has_id id r

abbrev pub is_due : ℕ → List ℕ → Option ℕ → OutboxRow → Bool
is_due now telegram_ids selected r =
    status_eq r.status pending
    && leb r.not_before now
    && contains telegram_ids r.telegram_id
    && is_selected selected r

abbrev pub claim_row : ℕ → OutboxRow → OutboxRow
claim_row now r = record r {
  status = sending;
  attempts = r.attempts + 1;
  claimed_at = some now;
  last_error = none;
  last_error_class = none;
}

-- The UPDATE of the row that was selected, and the row as it is read back.
unfoldable pub claim_selected : ℕ → OutboxRow → Ledger → Option OutboxRow × Ledger
claim_selected now selected l =
    let p = id_and_status selected.outbox_id pending in
    let l' = update_outbox p (claim_row now) l in
    if count_where p l.outbox == 1
    then (find_where (has_id selected.outbox_id) l'.outbox, l')
    else (none, l)

unfoldable pub claim_due_outbox : ℕ → List ℕ → Option ℕ → Ledger → Option OutboxRow × Ledger
claim_due_outbox now telegram_ids selected l =
    elim (first_of_rows (is_due now telegram_ids selected) l.outbox) [
      | none ↦ (none, l)
      | some r ↦ claim_selected now r l
    ]

abbrev pub sent_row : ℕ → OutboxRow → OutboxRow
sent_row now r = record r {
  status = sent;
  sent_at = some now;
  claimed_at = none;
  last_error = none;
  last_error_class = none;
}

abbrev pub with_receipt : ℕ → ℕ → Option String → Ledger → Ledger
with_receipt outbox_id now message_id l = record l {
  outbox = update_where (id_and_status outbox_id sending) (sent_row now) l.outbox;
  delivery_receipts =
      l.delivery_receipts
      ++ record { outbox_id = outbox_id; telegram_message_id = message_id; accepted_at = now } ∷ [];
}

-- The INSERT into delivery_receipts, whose outbox_id is UNIQUE; where it raises, the UPDATE is
-- rolled back.
unfoldable pub insert_receipt : ℕ → ℕ → Option String → Ledger → Result (Unit {0}) × Ledger
insert_receipt outbox_id now message_id l =
    if any_where (λ d. d.outbox_id == outbox_id) l.delivery_receipts
    then (err integrity, l)
    else (ok tt, with_receipt outbox_id now message_id l)

unfoldable pub mark_outbox_sent : ℕ → ℕ → Option String → Ledger → Result (Unit {0}) × Ledger
mark_outbox_sent outbox_id now message_id l =
    if count_where (id_and_status outbox_id sending) l.outbox == 1
    then insert_receipt outbox_id now message_id l
    else (err alert_store, l)

-- The status and the `not_before` that `mark_outbox_failure` writes.
abbrev pub failure_status : Bool → Option ℕ → OutboxStatus
failure_status true retry_at = uncertain
failure_status false (some t) = retry_wait
failure_status false none = failed

abbrev pub failure_not_before : Bool → Option ℕ → ℕ → ℕ
failure_not_before true retry_at now = now
failure_not_before false (some t) now = t
failure_not_before false none now = now

abbrev pub failure_row : ℕ → String → String → Option ℕ → Bool → OutboxRow → OutboxRow
failure_row now error_class error_message retry_at is_uncertain r = record r {
  status = failure_status is_uncertain retry_at;
  not_before = failure_not_before is_uncertain retry_at now;
  claimed_at = none;
  last_error_class = some (truncate 100 error_class);
  last_error = some (truncate 500 error_message);
}

unfoldable pub mark_outbox_failure :
    ℕ → ℕ → String → String → Option ℕ → Bool → Ledger → Result OutboxStatus × Ledger
mark_outbox_failure outbox_id now error_class error_message retry_at is_uncertain l =
    let p = id_and_status outbox_id sending in
    (
      if count_where p l.outbox == 1
          then ok (failure_status is_uncertain retry_at)
          else err alert_store,
      update_outbox p (failure_row now error_class error_message retry_at is_uncertain) l,
    )

abbrev pub or_now : Option ℕ → ℕ → ℕ
or_now none now = now
or_now (some t) now = t

abbrev pub return_row : ℕ → String → Option ℕ → OutboxRow → OutboxRow
return_row now reason not_before' r = record r {
  status = pending;
  not_before = or_now not_before' now;
  claimed_at = none;
  last_error_class = some "gate_changed";
  last_error = some (truncate 500 reason);
}

unfoldable pub return_outbox_to_pending :
    ℕ → ℕ → String → Option ℕ → Ledger → Result (Unit {0}) × Ledger
return_outbox_to_pending outbox_id now reason not_before' l =
    let p = id_and_status outbox_id sending in
    (
      if count_where p l.outbox == 1 then ok tt else err alert_store,
      update_outbox p (return_row now reason not_before') l,
    )

abbrev pub is_stale : ℕ → List ℕ → OutboxRow → Bool
is_stale stale_before telegram_ids r =
    status_eq r.status sending
    && some_and_lt r.claimed_at stale_before
    && contains telegram_ids r.telegram_id

abbrev pub stale_row : ℕ → OutboxRow → OutboxRow
stale_row now r = record r {
  status = uncertain;
  claimed_at = none;
  last_error_class = some "stale_sending";
  last_error = some "worker restarted while Telegram acceptance was unknown";
  updated_at = some now;
}

unfoldable pub recover_stale_sending : ℕ → ℕ → List ℕ → Ledger → ℕ × Ledger
recover_stale_sending now stale_before telegram_ids l =
    let p = is_stale stale_before telegram_ids in
    (count_where p l.outbox, update_outbox p (stale_row now) l)
