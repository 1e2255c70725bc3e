-- ===== src/Ledger/Outbox/Steps.antt =====
-- The calls that change the outbox, as one type of operations, and what a call leaves behind.
use chc_rental.Base.{ℕ, String, Bool, Option, none, some, List, [], ◌∷◌}
use chc_rental.Ledger.{Ledger}
use chc_rental.Ledger.Outbox.{
  ShadowIntent, enqueue_shadow, retry_failed_outbox, promote_shadow, cancel_outbox,
  cancel_recipient_outbox, release_due_retries, claim_due_outbox, mark_outbox_sent,
  mark_outbox_failure, return_outbox_to_pending, recover_stale_sending,
  mark_terminal_failure_alerted,
}

pub data Op : Type 0 where
  enqueue : ShadowIntent → Op
  retry_failed : ℕ → ℕ → Op
  promote : ℕ → ℕ → Op
  cancel : ℕ → String → Op
  cancel_recipient : List ℕ → ℕ → String → Op
  release_due : ℕ → List ℕ → Op
  claim_due : ℕ → List ℕ → Option ℕ → Op
  mark_sent : ℕ → ℕ → Option String → Op
  mark_failure : ℕ → ℕ → String → String → Option ℕ → Bool → Op
  return_to_pending : ℕ → ℕ → String → Option ℕ → Op
  recover_stale : ℕ → ℕ → List ℕ → Op
  mark_alerted : List ℕ → ℕ → Op

-- The ledger after one call, whether it returned or raised.
unfoldable pub step : Op → Ledger → Ledger
step (enqueue i) l = (enqueue_shadow i l).1
step (retry_failed id now) l = (retry_failed_outbox id now l).1
step (promote id now) l = (promote_shadow id now l).1
step (cancel id reason) l = (cancel_outbox id reason l).1
step (cancel_recipient ids now reason) l = (cancel_recipient_outbox ids now reason l).1
step (release_due now ids) l = (release_due_retries now ids l).1
step (claim_due now ids selected) l = (claim_due_outbox now ids selected l).1
step (mark_sent id now message_id) l = (mark_outbox_sent id now message_id l).1
step (mark_failure id now c m retry_at u) l = (mark_outbox_failure id now c m retry_at u l).1
step (return_to_pending id now reason t) l = (return_outbox_to_pending id now reason t l).1
step (recover_stale now before ids) l = (recover_stale_sending now before ids l).1
step (mark_alerted ids now) l = mark_terminal_failure_alerted ids now l

unfoldable pub steps : List Op → Ledger → Ledger
steps [] l = l
steps (op ∷ ops) l = steps ops (step op l)

-- The intent of a call of `enqueue_shadow`.
abbrev pub enqueued : Op → Option ShadowIntent
enqueued (enqueue i) = some i
enqueued _ = none
