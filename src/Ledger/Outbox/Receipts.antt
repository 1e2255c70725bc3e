-- ===== src/Ledger/Outbox/Receipts.antt =====
-- The invariant of the outbox: unique keys, and delivery receipts that agree with the rows.
use chc_rental.Base.{
  ℕ, String, ◌≡◌, refl, Bool, true, Option, List, [], ◌∷◌, arith, Bool-cases, Option-cases, inl,
  inr, ◌==◌, if-snd, if-keeps,
}
use chc_rental.Base.Table.{count_where, any_where}
use chc_rental.Ledger.{Ledger, OutboxRow, shadow, pending, sending, sent, failed, AuditAction}
use chc_rental.Ledger.Outbox.{
  id_and_status, update_outbox, audited, retry_row, promote_row, cancel_row, release_row, claim_row,
  failure_row, return_row, stale_row, alerted_row, is_due_retry, is_cancellable, is_cancellable_for,
  is_stale, is_listed_failure, status_eq, insert_receipt, first_of_rows, is_due,
  retry_failed_outbox, promote_shadow, cancel_outbox, cancel_recipient_outbox, release_due_retries,
  claim_due_outbox, claim_selected, mark_outbox_sent, mark_outbox_failure, return_outbox_to_pending,
  recover_stale_sending, mark_terminal_failure_alerted,
}
use chc_rental.Ledger.Outbox.Steps.{
  Op, enqueue, retry_failed, promote, cancel, cancel_recipient, release_due, claim_due, mark_sent,
  mark_failure, return_to_pending, recover_stale, mark_alerted, step, steps,
}
use chc_rental.Ledger.Outbox.Valid.{
  IsValid, update-IsValid, enqueue_shadow-IsValid, with_receipt-IsValid,
}

update_outbox-IsValid :
    (p : OutboxRow → Bool) (f : OutboxRow → OutboxRow) (l : Ledger)
    → ((r : OutboxRow) → (f r).outbox_id ≡ r.outbox_id)
    → ((r : OutboxRow) → (f r).idempotency_key ≡ r.idempotency_key)
    → ((r : OutboxRow) → p r ≡ true → status_eq (f r).status sent ≡ status_eq r.status sent)
    → IsValid l
    → IsValid (update_outbox p f l)
update_outbox-IsValid p f l id key is_sent = update-IsValid p f l _ id key is_sent refl refl refl

audited-IsValid : (a : AuditAction) (now : ℕ) (l : Ledger) → IsValid l → IsValid (audited a now l)
audited-IsValid a now l h = record {
  unique_ids = h.unique_ids;
  unique_keys = h.unique_keys;
  ids_used = h.ids_used;
  receipts_match = h.receipts_match;
  receipts_used = h.receipts_used;
  one_receipt = h.one_receipt;
}

module _ (l : Ledger) (h : IsValid l) where
  retry_failed-IsValid : (k now : ℕ) → IsValid (retry_failed_outbox k now l).1
  unfolding retry_failed_outbox
  retry_failed-IsValid k now =
      if-snd IsValid _ _ _
        (audited-IsValid _ now _ (
          update_outbox-IsValid (id_and_status k failed) (retry_row now) l (λ r. refl) (λ r. refl)
            (λ r hit. ground arith) h))
        h

  promote-IsValid : (k now : ℕ) → IsValid (promote_shadow k now l).1
  unfolding promote_shadow
  promote-IsValid k now =
      let moved =
        update_outbox-IsValid (id_and_status k shadow) promote_row l (λ r. refl) (λ r. refl)
          (λ r hit. ground arith) h in
      if-keeps IsValid _ _ _ moved (audited-IsValid _ now _ moved)

  cancel_recipient-IsValid :
      (ids : List ℕ) (now : ℕ) (reason : String)
      → IsValid (cancel_recipient_outbox ids now reason l).1
  unfolding cancel_recipient_outbox
  cancel_recipient-IsValid [] now reason = h
  cancel_recipient-IsValid (t ∷ ts) now reason =
      let moved =
        update_outbox-IsValid (is_cancellable_for (t ∷ ts)) (cancel_row reason) l (λ r. refl)
          (λ r. refl) (λ r hit. ground arith) h in
      if-snd IsValid _ _ _ h (if-keeps IsValid _ _ _ moved (audited-IsValid _ now _ moved))

  claim_selected-IsValid : (now : ℕ) (r : OutboxRow) → IsValid (claim_selected now r l).1
  unfolding claim_selected
  claim_selected-IsValid now r =
      if-snd IsValid _ _ _
        (update_outbox-IsValid (id_and_status r.outbox_id pending) (claim_row now) l (λ r. refl)
          (λ r. refl) (λ r hit. ground arith) h)
        h

  claim_due-IsValid :
      (now : ℕ) (ids : List ℕ) (selected : Option ℕ)
      → IsValid (claim_due_outbox now ids selected l).1
  unfolding claim_due_outbox
  claim_due-IsValid now ids selected =
      elim (Option-cases (first_of_rows (is_due now ids selected) l.outbox)) [
        | inl e ↦ rw (e, claim_due_outbox) h
        | inr (r, e) ↦ rw (e, claim_due_outbox) (claim_selected-IsValid now r)
      ]

  insert_receipt-IsValid :
      (k now : ℕ) (message_id : Option String)
      → count_where (id_and_status k sending) l.outbox ≡ 1
      → IsValid (insert_receipt k now message_id l).1
  unfolding insert_receipt
  insert_receipt-IsValid k now message_id one =
      elim (Bool-cases (any_where (λ d. d.outbox_id == k) l.delivery_receipts)) [
        | inl old ↦ rw old h
        | inr new ↦ rw new (with_receipt-IsValid k now message_id l one new h)
      ]

  mark_sent-IsValid :
      (k now : ℕ) (message_id : Option String) → IsValid (mark_outbox_sent k now message_id l).1
  unfolding mark_outbox_sent
  mark_sent-IsValid k now message_id =
      elim (Bool-cases (count_where (id_and_status k sending) l.outbox == 1)) [
        | inl one ↦
            rw (one, mark_outbox_sent) (insert_receipt-IsValid k now message_id (ground arith))
        | inr not_one ↦ rw (not_one, mark_outbox_sent) h
      ]

-- Every call on the outbox, whether it returns or raises, keeps the invariant: ids and idempotency
-- keys are unique, and a row has a delivery receipt, one, exactly when its status is sent.
pub step-IsValid : (op : Op) (l : Ledger) → IsValid l → IsValid (step op l)
unfolding step cancel_outbox release_due_retries mark_outbox_failure return_outbox_to_pending
    recover_stale_sending mark_terminal_failure_alerted
step-IsValid (enqueue i) l h = enqueue_shadow-IsValid i l h
step-IsValid (retry_failed k now) l h = retry_failed-IsValid l h k now
step-IsValid (promote k now) l h = promote-IsValid l h k now
step-IsValid (cancel k reason) l h =
    update_outbox-IsValid (is_cancellable k) (cancel_row reason) l (λ r. refl) (λ r. refl)
      (λ r hit. ground arith) h
step-IsValid (cancel_recipient ids now reason) l h = cancel_recipient-IsValid l h ids now reason
step-IsValid (release_due now ids) l h =
    update_outbox-IsValid (is_due_retry now ids) release_row l (λ r. refl) (λ r. refl)
      (λ r hit. ground arith) h
step-IsValid (claim_due now ids selected) l h = claim_due-IsValid l h now ids selected
step-IsValid (mark_sent k now message_id) l h = mark_sent-IsValid l h k now message_id
step-IsValid (mark_failure k now c m retry_at u) l h =
    update_outbox-IsValid (id_and_status k sending) (failure_row now c m retry_at u) l (λ r. refl)
      (λ r. refl) (λ r hit. ground arith) h
step-IsValid (return_to_pending k now reason t) l h =
    update_outbox-IsValid (id_and_status k sending) (return_row now reason t) l (λ r. refl)
      (λ r. refl) (λ r hit. ground arith) h
step-IsValid (recover_stale now b ids) l h =
    update_outbox-IsValid (is_stale b ids) (stale_row now) l (λ r. refl) (λ r. refl)
      (λ r hit. ground arith) h
step-IsValid (mark_alerted ids now) l h =
    update_outbox-IsValid (is_listed_failure ids) (alerted_row now) l (λ r. refl) (λ r. refl)
      (λ r hit. refl) h

-- From an empty ledger, after any calls in any order.
pub steps-IsValid : (ops : List Op) (l : Ledger) → IsValid l → IsValid (steps ops l)
unfolding steps
steps-IsValid [] l h = h
steps-IsValid (op ∷ ops) l h = steps-IsValid ops (step op l) (step-IsValid op l h)
