-- ===== src/Worker/Steps.antt =====
-- The outbox calls of the worker.
use chc_rental.Base.{
  ℕ, String, ◌≡◌, refl, Bool, true, false, Option, none, Option-cases, inl, inr, ◌⊎◌, ltb,
  if◌then◌else◌, if-keeps,
}
use chc_rental.Base.Raise.{Result, ok, err}
use chc_rental.Models.{get, Allowlist, AllowlistEntry, Listing, Settings}
use chc_rental.Ledger.{Ledger, OutboxRow, OutboxStatus}
use chc_rental.Ledger.Outbox.Steps.{Op, cancel, mark_sent, mark_failure, return_to_pending, step}
use chc_rental.Worker.{
  SendOutcome, accepted, send_error, unknown_error, World, WorkerConfig, Work, eligibility, gone,
  cancel_row_of, return_row_of, fail_row_of, is_last, on_send_error, on_accepted, on_outcome,
  transport, Eligibility, deliver_person, deliver_allowed, deliver_eligible, deliver_judged,
  deliver_under, deliver_claimed, marked, then_, counted,
}

-- The ledger after it is that of one outbox call.
abbrev pub OneStep : Ledger → Work → Type 0
OneStep l k = (op : Op) × (k.ledger ≡ step op l)

-- The ledger after it is as it was, or that of one outbox call.
abbrev pub MaxOneStep : Ledger → Work → Type 0
MaxOneStep l k = (k.ledger ≡ l) ⊎ OneStep l k

either :
    (b : Bool) (r r' : Result (Unit {0}) × Work) (l : Ledger)
    → OneStep l r.1
    → OneStep l r'.1
    → OneStep l (if b then r else r').1
either true r r' l h h' = h
either false r r' l h h' = h'

ledger-then :
    (r : Result (Unit {0})) (k k' : Work) (l : Ledger)
    → k.ledger ≡ l
    → k'.ledger ≡ l
    → (then_ r k k').1.ledger ≡ l
ledger-then (ok u) k k' l h h' = h'
ledger-then (err e) k k' l h h' = h

ledger-counted : (r : Result OutboxStatus) (l : Ledger) (k : Work) → (counted r l k).1.ledger ≡ l
ledger-counted (ok s) l k = refl
ledger-counted (err e) l k = refl

ledger-marked :
    (row : OutboxRow) (r : Result Listing) (k : Work) → (marked row r k).ledger ≡ k.ledger
ledger-marked row (ok l) k = refl
ledger-marked row (err e) k = refl

module _ (row : OutboxRow) (now : ℕ) where
  pub cancel-OneStep :
      (k : Work) (reason : String) → OneStep k.ledger (cancel_row_of row.outbox_id reason k)
  unfolding cancel_row_of step
  cancel-OneStep k reason = (cancel row.outbox_id reason, refl)

  gone-OneStep : (k : Work) → OneStep k.ledger (gone row k)
  unfolding gone step
  gone-OneStep k = (cancel row.outbox_id "recipient disappeared before transport", refl)

  return-OneStep :
      (k : Work) (reason : String) (t : Option ℕ)
      → OneStep k.ledger (return_row_of row.outbox_id now reason t k).1
  unfolding return_row_of step
  return-OneStep k reason t =
      (return_to_pending row.outbox_id now reason t, ledger-then _ _ _ _ refl refl)

  fail-OneStep :
      (k : Work) (class message : String) (t : Option ℕ) (u : Bool)
      → OneStep k.ledger (fail_row_of row now class message t u k).1
  unfolding fail_row_of step
  fail-OneStep k class message t u =
      (mark_failure row.outbox_id now class message t u, ledger-counted _ _ k)

  accepted-OneStep :
      (k : Work) (message_id : Option String)
      → OneStep k.ledger (on_accepted row now message_id k).1
  unfolding on_accepted step
  accepted-OneStep k message_id =
      (mark_sent row.outbox_id now message_id, ledger-then _ _ _ _ refl (ledger-marked row _ _))

module _ (c : WorkerConfig) (row : OutboxRow) (now : ℕ) where
  error-OneStep :
      (ambiguous terminal : Bool) (retry_after : Option ℕ) (message : String) (k : Work)
      → OneStep k.ledger (on_send_error c row now ambiguous terminal retry_after message k).1
  unfolding on_send_error
  error-OneStep true terminal retry_after message k = fail-OneStep row now k _ message none true
  error-OneStep false terminal retry_after message k =
      either (is_last c row terminal) _ _ k.ledger (fail-OneStep row now k _ message none false)
        (fail-OneStep row now k _ message _ false)

  outcome-OneStep :
      (outcome : SendOutcome) (k : Work) → OneStep k.ledger (on_outcome c row now outcome k).1
  outcome-OneStep (accepted message_id) k = accepted-OneStep row now k message_id
  outcome-OneStep (send_error ambiguous terminal retry_after message) k =
      error-OneStep ambiguous terminal retry_after message k
  outcome-OneStep (unknown_error message) k = fail-OneStep row now k _ message none true

  person-OneStep :
      (w : World) (person : AllowlistEntry) (k : Work)
      → OneStep k.ledger (deliver_person c row now w person k).1
  unfolding deliver_person
  person-OneStep w person k =
      either (ltb now (w.not_before person.profile now)) _ _ k.ledger
        (return-OneStep row now k "recipient is currently in quiet hours" _)
        (unfold transport in outcome-OneStep (w.send row.telegram_id row.message_text) _)

  allowed-MaxOneStep :
      (w : World) (r : Result Allowlist) (k : Work)
      → MaxOneStep k.ledger (deliver_allowed c row now w r k).1
  unfolding deliver_allowed
  allowed-MaxOneStep w (err e) k = inl refl
  allowed-MaxOneStep w (ok a) k = elim (Option-cases (get a row.telegram_id)) [
    | inl e ↦ rw (e, deliver_allowed) (inr (gone-OneStep row now k))
    | inr (person, e) ↦ rw (e, deliver_allowed) (inr (person-OneStep w person k))
  ]

  eligible-MaxOneStep :
      (w : World) (e : Eligibility) (k : Work)
      → MaxOneStep k.ledger (deliver_eligible c row now w e k).1
  unfolding deliver_eligible
  eligible-MaxOneStep w e k =
      if-keeps (λ (r : Result (Unit {0}) × Work). MaxOneStep k.ledger r.1) e.eligible _ _
        (allowed-MaxOneStep w w.allowlist_later k)
        (inr (
          either e.permanent _ _ k.ledger (cancel-OneStep row now k e.reason)
            (return-OneStep row now k e.reason none)))

  judged-MaxOneStep :
      (w : World) (r : Result Eligibility) (k : Work)
      → MaxOneStep k.ledger (deliver_judged c row now w r k).1
  unfolding deliver_judged
  judged-MaxOneStep w (err e) k = inl refl
  judged-MaxOneStep w (ok e) k = eligible-MaxOneStep w e k

  under-MaxOneStep :
      (w : World) (r : Result Settings) (k : Work)
      → MaxOneStep k.ledger (deliver_under c row now w r k).1
  unfolding deliver_under
  under-MaxOneStep w (err e) k = inl refl
  under-MaxOneStep w (ok s) k = judged-MaxOneStep w (eligibility row s w k.ledger) k

-- The delivery of a claimed row changes the ledger by one outbox call at most.
pub deliver_claimed-MaxOneStep :
    (c : WorkerConfig) (row : OutboxRow) (now : ℕ) (w : World) (k : Work)
    → MaxOneStep k.ledger (deliver_claimed c row now w k).1
unfolding deliver_claimed
deliver_claimed-MaxOneStep c row now w k = under-MaxOneStep c row now w w.settings k
