-- ===== src/Worker/Settled.antt =====
-- What `_deliver_claimed` leaves of the row that was claimed.
use chc_rental.Base.{
  ℕ, String, ◌≡◌, refl, ◌∙◌, Bool, true, false, Option, none, List, [], ◌∷◌, arith, Bool-cases,
  Option-cases, inl, inr, ◌⊎◌, ◌==◌, ltb, if◌then◌else◌, if-keeps,
}
use chc_rental.Base.Table.{update_where, count_where, any_where, All}
use chc_rental.Base.Raise.{Error, Result, ok, err}
use chc_rental.Models.{get, Allowlist, AllowlistEntry, Listing, Settings}
use chc_rental.Ledger.{OutboxRow, sending, sent, DeliveryReceipt}
use chc_rental.Ledger.Outbox.{
  id_and_status, status_eq, outbox_listing, cancel_row, is_cancellable, cancel_outbox,
  insert_receipt, with_receipt, sent_row, mark_outbox_sent, failure_row, mark_outbox_failure,
  return_row, return_outbox_to_pending,
}
use chc_rental.Ledger.Outbox.Valid.{IsValid, HasReceiptIfSent}
use chc_rental.Worker.{
  marked, sent_report, SendOutcome, accepted, send_error, unknown_error, World, WorkerConfig, Work,
  eligibility, gone, cancel_row_of, return_row_of, fail_row_of, is_last, on_send_error, on_accepted,
  on_outcome, transport, Eligibility, deliver_person, deliver_allowed, deliver_eligible,
  deliver_judged, deliver_under, deliver_claimed,
}
use chc_rental.Worker.Reads.{RowFails, settings_fail, allowlist_later_fails, eligibility-RowFails}

-- The row is claimed: one row has that id and is being sent.
abbrev pub IsClaimed : ℕ → Work → Type 0
IsClaimed id k = count_where (id_and_status id sending) k.ledger.outbox ≡ 1

-- The call returned, and no row of that id is left in `sending`.
abbrev pub Settles : ℕ → Result (Unit {0}) × Work → Type 0
Settles id (r, k) = (r ≡ ok tt) × (count_where (id_and_status id sending) k.ledger.outbox ≡ 0)

cleared :
    (q p : OutboxRow → Bool) (f : OutboxRow → OutboxRow) (rows : List OutboxRow)
    → ((r : OutboxRow) → q r ≡ true → p r ≡ true)
    → ((r : OutboxRow) → p r ≡ true → q (f r) ≡ false)
    → count_where q (update_where p f rows) ≡ 0
unfolding count_where update_where
cleared q p f [] all clears = refl
cleared q p f (r ∷ rows) all clears = ground (arith, cleared q p f rows all clears, all r, clears r)

no_receipt :
    (id : ℕ) (receipts : List DeliveryReceipt) (rows : List OutboxRow)
    → All (HasReceiptIfSent receipts) rows
    → count_where (id_and_status id sending) rows ≡ 1
    → any_where (λ d. d.outbox_id == id) receipts ≡ false
unfolding count_where
no_receipt id receipts [] h one = absurd (omega arith)
no_receipt id receipts (r ∷ rows) h one = elim (Bool-cases (r.outbox_id == id)) [
  | inr other ↦ no_receipt id receipts rows h.1 (ground arith)
  | inl own ↦ elim (Bool-cases (status_eq r.status sending)) [
    | inr not_ ↦ no_receipt id receipts rows h.1 (ground arith)
    | inl now_ ↦
        let e : r.outbox_id ≡ id = ground arith in
        let s : status_eq r.status sent ≡ false = ground arith in rw e at (h.0) ∙ s
  ]
]

marked-ledger :
    (row : OutboxRow) (r : Result Listing) (k : Work) → (marked row r k).ledger ≡ k.ledger
marked-ledger row (ok l) k = refl
marked-ledger row (err e) k = refl

module _ (row : OutboxRow) (now : ℕ) (k : Work) where
  cancel-Settles :
      (reason : String) → Settles row.outbox_id (ok tt, cancel_row_of row.outbox_id reason k)
  unfolding cancel_row_of cancel_outbox
  cancel-Settles reason = (
    refl,
    cleared _ (is_cancellable row.outbox_id) (cancel_row reason) k.ledger.outbox
        (λ r hit. ground arith) (λ r hit. ground arith),
  )

  gone-Settles : Settles row.outbox_id (ok tt, gone row k)
  unfolding gone cancel_outbox
  gone-Settles = (
    refl,
    cleared _ (is_cancellable row.outbox_id) (cancel_row "recipient disappeared before transport")
        k.ledger.outbox (λ r hit. ground arith) (λ r hit. ground arith),
  )

  return-Settles :
      (reason : String) (t : Option ℕ)
      → IsClaimed row.outbox_id k
      → Settles row.outbox_id (return_row_of row.outbox_id now reason t k)
  unfolding return_row_of return_outbox_to_pending
  return-Settles reason t one = rw one (
    refl,
    cleared _ (id_and_status row.outbox_id sending) (return_row now reason t) k.ledger.outbox
        (λ r hit. hit) (λ r hit. ground arith),
  )

  fail-Settles :
      (class message : String) (t : Option ℕ) (is_uncertain : Bool)
      → IsClaimed row.outbox_id k
      → Settles row.outbox_id (fail_row_of row now class message t is_uncertain k)
  unfolding fail_row_of mark_outbox_failure
  fail-Settles class message t is_uncertain one = rw one (
    refl,
    cleared _ (id_and_status row.outbox_id sending) (failure_row now class message t is_uncertain)
        k.ledger.outbox (λ r hit. hit) (λ r hit. ground arith),
  )

  accepted-Settles :
      (message_id : Option String)
      → IsValid k.ledger
      → IsClaimed row.outbox_id k
      → Settles row.outbox_id (on_accepted row now message_id k)
  unfolding on_accepted mark_outbox_sent insert_receipt
  accepted-Settles message_id h one =
      let free =
        no_receipt row.outbox_id k.ledger.delivery_receipts k.ledger.outbox h.receipts_match one in
      rw
        (
          one,
          free,
          marked-ledger row
              (outbox_listing row.outbox_id (with_receipt row.outbox_id now message_id k.ledger))
              (record k {
                ledger = with_receipt row.outbox_id now message_id k.ledger;
                report = sent_report row k.report;
              }),
        )
        (
          refl,
          cleared _ (id_and_status row.outbox_id sending) (sent_row now) k.ledger.outbox
              (λ r hit. hit) (λ r hit. ground arith),
        )

module _ (c : WorkerConfig) (row : OutboxRow) (now : ℕ) (w : World) where
  error-Settles :
      (ambiguous terminal : Bool) (retry_after : Option ℕ) (message : String) (k : Work)
      → IsClaimed row.outbox_id k
      → Settles row.outbox_id (on_send_error c row now ambiguous terminal retry_after message k)
  unfolding on_send_error
  error-Settles true terminal retry_after message k one =
      fail-Settles row now k _ message none true one
  error-Settles false terminal retry_after message k one =
      if-keeps (Settles row.outbox_id) (is_last c row terminal) _ _
        (fail-Settles row now k _ message none false one)
        (fail-Settles row now k _ message _ false one)

  outcome-Settles :
      (outcome : SendOutcome) (k : Work)
      → IsValid k.ledger
      → IsClaimed row.outbox_id k
      → Settles row.outbox_id (on_outcome c row now outcome k)
  outcome-Settles (accepted message_id) k h one = accepted-Settles row now k message_id h one
  outcome-Settles (send_error ambiguous terminal retry_after message) k h one =
      error-Settles ambiguous terminal retry_after message k one
  outcome-Settles (unknown_error message) k h one = fail-Settles row now k _ message none true one

  -- The row is settled, or a reading raised: nothing was sent, and the ledger is as it was.
  abbrev pub SettlesOrRaises : Work → Result (Unit {0}) × Work → Type 0
  SettlesOrRaises k r =
      Settles row.outbox_id r ⊎ ((e : Error) × RowFails row w e × (r ≡ (err e, k)))

  person-Settles :
      (person : AllowlistEntry) (k : Work)
      → IsValid k.ledger
      → IsClaimed row.outbox_id k
      → Settles row.outbox_id (deliver_person c row now w person k)
  unfolding deliver_person transport
  person-Settles person k h one =
      if-keeps (Settles row.outbox_id) (ltb now (w.not_before person.profile now)) _ _
        (return-Settles row now k "recipient is currently in quiet hours" _ one)
        (outcome-Settles (w.send row.telegram_id row.message_text) _ h one)

  allowed-Settles :
      (r : Result Allowlist) (k : Work)
      → w.allowlist_later ≡ r
      → IsValid k.ledger
      → IsClaimed row.outbox_id k
      → SettlesOrRaises k (deliver_allowed c row now w r k)
  unfolding deliver_allowed
  allowed-Settles (err e) k read h one = inr (e, allowlist_later_fails read, refl)
  allowed-Settles (ok a) k read h one = elim (Option-cases (get a row.telegram_id)) [
    | inl e ↦ rw (e, deliver_allowed) (inl (gone-Settles row now k))
    | inr (person, e) ↦ rw (e, deliver_allowed) (inl (person-Settles person k h one))
  ]

  ineligible-Settles :
      (k : Work) (permanent : Bool) (reason : String)
      → IsClaimed row.outbox_id k
      → Settles row.outbox_id (
          if permanent
          then (ok tt, cancel_row_of row.outbox_id reason k)
          else return_row_of row.outbox_id now reason none k)
  ineligible-Settles k true reason one = cancel-Settles row now k reason
  ineligible-Settles k false reason one = return-Settles row now k reason none one

  judged-Settles :
      (s : Settings) (r : Result Eligibility) (k : Work)
      → eligibility row s w k.ledger ≡ r
      → IsValid k.ledger
      → IsClaimed row.outbox_id k
      → SettlesOrRaises k (deliver_judged c row now w r k)
  unfolding deliver_judged deliver_eligible
  judged-Settles s (err e) k judged h one =
      inr (e, eligibility-RowFails row w e s k.ledger judged, refl)
  judged-Settles s (ok e) k judged h one =
      if-keeps (SettlesOrRaises k) e.eligible _ _ (allowed-Settles w.allowlist_later k refl h one)
        (inl (ineligible-Settles k e.permanent e.reason one))

  under-Settles :
      (r : Result Settings) (k : Work)
      → w.settings ≡ r
      → IsValid k.ledger
      → IsClaimed row.outbox_id k
      → SettlesOrRaises k (deliver_under c row now w r k)
  unfolding deliver_under
  under-Settles (err e) k read h one = inr (e, settings_fail read, refl)
  under-Settles (ok s) k read h one = judged-Settles s (eligibility row s w k.ledger) k refl h one

-- In a valid ledger the delivery of a claimed row returns without an error and leaves no row of its
-- id in `sending`, whatever the clock and the transport do; or a reading of the settings, of the
-- allowlist or of the seen keys raises, and then the call raises the same, with nothing sent and the
-- ledger and the report as they were, so that the row is left in `sending`.
pub deliver_claimed-Settles :
    (c : WorkerConfig) (row : OutboxRow) (now : ℕ) (w : World) (k : Work)
    → IsValid k.ledger
    → IsClaimed row.outbox_id k
    → SettlesOrRaises c row now w k (deliver_claimed c row now w k)
unfolding deliver_claimed
deliver_claimed-Settles c row now w k h one = under-Settles c row now w w.settings k refl h one
