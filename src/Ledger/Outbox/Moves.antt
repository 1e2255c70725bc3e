-- ===== src/Ledger/Outbox/Moves.antt =====
-- Which step a call of the outbox makes of a row.
use chc_rental.Base.{
  ℕ, ◌≤◌, String, ◌≡◌, refl, Bool, true, false, Option, none, some, List, [], ◌∷◌, arith,
  Option-cases, inl, inr, if-snd, if-keeps,
}
use chc_rental.Base.Table.{update_where}
use chc_rental.Ledger.{
  Ledger, OutboxRow, OutboxStatus, shadow, pending, sending, sent, failed, retry_wait, uncertain,
  cancelled,
}
use chc_rental.Ledger.Outbox.{
  insert_receipt, first_of_rows, is_due, retry_failed_outbox, promote_shadow, cancel_outbox,
  cancel_recipient_outbox, release_due_retries, claim_due_outbox, claim_selected, mark_outbox_sent,
  mark_outbox_failure, return_outbox_to_pending, recover_stale_sending,
  mark_terminal_failure_alerted,
}
use chc_rental.Ledger.Outbox.Steps.{
  Op, enqueue, retry_failed, promote, cancel, cancel_recipient, release_due, claim_due, mark_sent,
  mark_failure, return_to_pending, recover_stale, mark_alerted, step, enqueued,
}

-- The statuses that a row may have after one call.
abbrev pub may_move : OutboxStatus → OutboxStatus → Bool
may_move shadow shadow = true
may_move shadow pending = true
may_move shadow cancelled = true
may_move pending pending = true
may_move pending sending = true
may_move pending cancelled = true
may_move sending shadow = false
may_move sending s = true
may_move retry_wait retry_wait = true
may_move retry_wait pending = true
may_move retry_wait cancelled = true
may_move failed failed = true
may_move failed retry_wait = true
may_move failed cancelled = true
may_move sent sent = true
may_move uncertain uncertain = true
may_move cancelled cancelled = true
may_move _ _ = false

-- What one call may do to a row. The columns of the intent stay, but for `not_before`; attempts are
-- only counted up. `last_error`, `last_error_class`, `claimed_at`, `sent_at`, `operator_alerted_at`
-- and `updated_at` are left open.
pub record RowStep (r r' : OutboxRow) : Type 0 where
  pub id : r'.outbox_id ≡ r.outbox_id
  pub key : r'.idempotency_key ≡ r.idempotency_key
  pub recipient : r'.telegram_id ≡ r.telegram_id
  pub search : r'.search_id ≡ r.search_id
  pub search_name : r'.primary_search_name ≡ r.primary_search_name
  pub searches : r'.matching_search_ids ≡ r.matching_search_ids
  pub identity : r'.identity_key ≡ r.identity_key
  pub version : r'.version_hash ≡ r.version_hash
  pub event : r'.event_type ≡ r.event_type
  pub text : r'.message_text ≡ r.message_text
  pub created : r'.created_at ≡ r.created_at
  pub tried : r.attempts ≤ r'.attempts
  pub moves : may_move r.status r'.status ≡ true

-- The same of what a ledger holds under one id, before and after: no row goes, a new row is a shadow.
abbrev pub Follows : Option OutboxRow → Option OutboxRow → Type 0
Follows none none = Unit
Follows none (some r') = (r'.status ≡ shadow) × (r'.attempts ≡ 0)
Follows (some r) none = ⊥
Follows (some r) (some r') = RowStep r r'

may_move_refl : (s : OutboxStatus) → may_move s s ≡ true
may_move_refl shadow = refl
may_move_refl _ = refl

pub RowStep-refl : (r : OutboxRow) → RowStep r r
RowStep-refl r = ground (arith, may_move_refl r.status)

pub Follows-refl : (o : Option OutboxRow) → Follows o o
Follows-refl none = tt
Follows-refl (some r) = RowStep-refl r

-- What a call other than `enqueue_shadow` does to the rows: some of them make a step.
pub data Update (rows rows' : List OutboxRow) : Type 0 where
  unchanged : rows' ≡ rows → Update rows rows'
  updated :
      (p : OutboxRow → Bool) (f : OutboxRow → OutboxRow)
      → ((r : OutboxRow) → p r ≡ true → RowStep r (f r))
      → rows' ≡ update_where p f rows
      → Update rows rows'

module _ (l : Ledger) where
  abbrev Keeps : Ledger → Type 0
  Keeps l' = Update l.outbox l'.outbox

  Keeps-same : Keeps l
  Keeps-same = unchanged refl

  retry_failed-Keeps : (k now : ℕ) → Keeps (retry_failed_outbox k now l).1
  unfolding retry_failed_outbox
  retry_failed-Keeps k now = if-snd Keeps _ _ _ (updated _ _ (λ r h. ground arith) refl) Keeps-same

  promote-Keeps : (k now : ℕ) → Keeps (promote_shadow k now l).1
  unfolding promote_shadow
  promote-Keeps k now =
      if-keeps Keeps _ _ _ (updated _ _ (λ r h. ground arith) refl)
        (updated _ _ (λ r h. ground arith) refl)

  cancel-Keeps : (k : ℕ) (reason : String) → Keeps (cancel_outbox k reason l).1
  unfolding cancel_outbox
  cancel-Keeps k reason = updated _ _ (λ r h. ground arith) refl

  cancel_recipient-Keeps :
      (ids : List ℕ) (now : ℕ) (reason : String)
      → Keeps (cancel_recipient_outbox ids now reason l).1
  unfolding cancel_recipient_outbox
  cancel_recipient-Keeps [] now reason = Keeps-same
  cancel_recipient-Keeps (t ∷ ts) now reason = if-snd Keeps _ _ _ Keeps-same (
      if-keeps Keeps _ _ _ (updated _ _ (λ r h. ground arith) refl)
        (updated _ _ (λ r h. ground arith) refl))

  claim_selected-Keeps : (now : ℕ) (r : OutboxRow) → Keeps (claim_selected now r l).1
  unfolding claim_selected
  claim_selected-Keeps now r =
      if-snd Keeps _ _ _ (updated _ _ (λ r h. ground arith) refl) Keeps-same

  claim_due-Keeps :
      (now : ℕ) (ids : List ℕ) (selected : Option ℕ) → Keeps (claim_due_outbox now ids selected l).1
  unfolding claim_due_outbox
  claim_due-Keeps now ids selected =
      elim (Option-cases (first_of_rows (is_due now ids selected) l.outbox)) [
        | inl e ↦ rw (e, claim_due_outbox) Keeps-same
        | inr (r, e) ↦ rw (e, claim_due_outbox) (claim_selected-Keeps now r)
      ]

  insert_receipt-Keeps :
      (k now : ℕ) (message_id : Option String) → Keeps (insert_receipt k now message_id l).1
  unfolding insert_receipt
  insert_receipt-Keeps k now message_id =
      if-snd Keeps _ _ _ Keeps-same (updated _ _ (λ r h. ground arith) refl)

  mark_sent-Keeps :
      (k now : ℕ) (message_id : Option String) → Keeps (mark_outbox_sent k now message_id l).1
  unfolding mark_outbox_sent
  mark_sent-Keeps k now message_id =
      if-snd Keeps _ _ _ (insert_receipt-Keeps k now message_id) Keeps-same

  mark_failure-Keeps :
      (k now : ℕ) (c m : String) (retry_at : Option ℕ) (u : Bool)
      → Keeps (mark_outbox_failure k now c m retry_at u l).1
  unfolding mark_outbox_failure
  mark_failure-Keeps k now c m retry_at u = updated _ _ (λ r h. ground arith) refl

  return_to_pending-Keeps :
      (k now : ℕ) (reason : String) (t : Option ℕ)
      → Keeps (return_outbox_to_pending k now reason t l).1
  unfolding return_outbox_to_pending
  return_to_pending-Keeps k now reason t = updated _ _ (λ r h. ground arith) refl

pub step-Update : (op : Op) (l : Ledger) → enqueued op ≡ none → Update l.outbox (step op l).outbox
unfolding step release_due_retries recover_stale_sending mark_terminal_failure_alerted
step-Update (enqueue i) l h = cc
step-Update (retry_failed k now) l h = retry_failed-Keeps l k now
step-Update (promote k now) l h = promote-Keeps l k now
step-Update (cancel k reason) l h = cancel-Keeps l k reason
step-Update (cancel_recipient ids now reason) l h = cancel_recipient-Keeps l ids now reason
step-Update (release_due now ids) l h = updated _ _ (λ r hit. ground arith) refl
step-Update (claim_due now ids selected) l h = claim_due-Keeps l now ids selected
step-Update (mark_sent k now message_id) l h = mark_sent-Keeps l k now message_id
step-Update (mark_failure k now c m retry_at u) l h = mark_failure-Keeps l k now c m retry_at u
step-Update (return_to_pending k now reason t) l h = return_to_pending-Keeps l k now reason t
step-Update (recover_stale now b ids) l h = updated _ _ (λ r hit. ground arith) refl
step-Update (mark_alerted ids now) l h =
    updated _ _ (λ r hit. ground (arith, may_move_refl r.status)) refl
