-- ===== src/Pipeline/Once.antt =====
-- How often the sender is given the message of an attempt.
use chc_rental.Base.{
  ℕ, String, ◌≡◌, refl, sym, ap, ◌∙◌, Bool, true, false, ◌||◌, not, Option, none, some, [], ◌∷◌,
  ◌++◌, arith, Bool-cases, inl, inr, is_none,
}
use chc_rental.Base.Raise.{ok, err}
use chc_rental.Journal.{
  RoutineStatus, prepared, sending, accepted, failed, uncertain, RoutineDeliveryEntry, moved_entry,
}
use chc_rental.Journal.Store.{
  Journal, Attempt, Target, to_sending, to_accepted, to_uncertain, status_of, status_eq,
  allowed_from, Receipt, Answer,
}
use chc_rental.Journal.Answers.{
  WriteAnswer, made, lost_, is_locked, has_fault, own_entry, Prepares, raised, settled, opened,
  prepare-Prepares, transition-answer,
}
use chc_rental.Pipeline.Send.{
  Reply, telegram_error, other_error, receipt, Outcome, sent, unsure, refused, Post, Sender,
  with_journal, nothing_but, or_raise, or_else, move, unverified, is_for_chat, on_reply, message_of,
  handed_over, if_sending, if_prepared, send_attempt,
}

-- `TelegramSendError` that is not ambiguous.
abbrev pub is_refusal : Reply → Bool
is_refusal (telegram_error ambiguous text) = not ambiguous
is_refusal _ = false

abbrev pub own : Attempt → Post → Option RoutineDeliveryEntry
own a p = own_entry a p.bank.journal

pub or_raise_lem : (o : Outcome) (w : Answer) (p : Post) → (or_raise o w p).1 ≡ with_journal w.1 p
or_raise_lem o (ok e, j) p = refl
or_raise_lem o (err x, j) p = refl

pub or_else_lem :
    (o o' : Outcome) (w : Answer) (p : Post) → (or_else o o' w p).1 ≡ with_journal w.1 p
or_else_lem o o' (ok e, j) p = refl
or_else_lem o o' (err x, j) p = refl

-- What a call may do that the sender is given nothing by, and what one that it is.
pub data Sends (sender : Sender) (a : Attempt) (p : Post) : Post → Type 0 where
  held :
      (p' : Post)
      → p'.outgoing ≡ p.outgoing
      → (is_locked (own a p) || has_fault p.bank.journal) ≡ true
      → (is_locked (own a p) ≡ true → is_locked (own a p') ≡ true)
      → Sends sender a p p'
  handed :
      (p' : Post)
      → is_locked (own a p) ≡ false
      → p'.outgoing ≡ p.outgoing ++ message_of a ∷ []
      → (is_refusal (sender.send p'.outgoing) ≡ false → is_locked (own a p') ≡ true)
      → Sends sender a p p'

locked_by :
    (a : Attempt) (e : RoutineDeliveryEntry) (j : Journal) {w : Answer}
    → WriteAnswer a.payload.local_date a.attempt_id e j w
    → is_locked (some e) ≡ true
    → is_locked (own_entry a j) ≡ true
    → is_locked (own_entry a w.1) ≡ true
locked_by a e j (made j' at keep) new old = ap is_locked at ∙ new
locked_by a e j (lost_ j' at fault) new old = ap is_locked at ∙ old

abbrev pub got : Option String → Option String → Receipt
got m c = record { telegram_message_id = m; chat_id = c; error = none }

module _ (sender : Sender) (a : Attempt) (now : ℕ) (p : Post) (e : RoutineDeliveryEntry) where
  -- The state after a move of an attempt that is being sent.
  move-locked :
      (t : Target) (r : Receipt)
      → own a p ≡ some e
      → e.status ≡ sending
      → sending ≡ allowed_from t
      → is_locked (some (moved_entry (status_of t) now r.telegram_message_id r.chat_id r.error e))
        ≡ true
      → is_locked (own_entry a (move a t now r p).1) ≡ true
  unfolding move is_locked
  move-locked t r found at from locked =
      locked_by a _ p.bank.journal
        (transition-answer _ _ p.bank.journal e t now r found (at ∙ from)) locked
        (rw (found, at) refl)

  on_reply-locked :
      (reply : Reply)
      → own a p ≡ some e
      → e.status ≡ sending
      → is_refusal reply ≡ false
      → is_locked (own a (on_reply sender a now reply p).1) ≡ true
  unfolding on_reply is_locked
  on_reply-locked (telegram_error true text) found at h =
      rw (or_raise_lem unsure (move a to_uncertain now (nothing_but (some text)) p) p)
        (move-locked to_uncertain (nothing_but (some text)) found at refl refl)
  on_reply-locked (telegram_error false text) found at h =
      absurd (let w : true ≡ false = h in ground arith)
  on_reply-locked (other_error text) found at h =
      rw (or_raise_lem unsure (move a to_uncertain now (nothing_but (some text)) p) p)
        (move-locked to_uncertain (nothing_but (some text)) found at refl refl)
  on_reply-locked (receipt m c) found at h =
      elim (Bool-cases (is_none m || not (is_for_chat sender a c))) [
        | inl bad ↦
            rw
              (
                bad,
                or_raise_lem unsure (move a to_uncertain now (nothing_but (some unverified)) p) p,
              )
              (move-locked to_uncertain (nothing_but (some unverified)) found at refl refl)
        | inr good ↦
            rw (good, or_else_lem (sent m c) unsure (move a to_accepted now (got m c) p) p)
              (move-locked to_accepted (got m c) found at refl refl)
      ]

on_reply-outgoing :
    (sender : Sender) (a : Attempt) (now : ℕ) (reply : Reply) (p : Post)
    → (on_reply sender a now reply p).1.outgoing ≡ p.outgoing
unfolding on_reply
on_reply-outgoing sender a now (telegram_error true text) p =
    ap (λ (q : Post). q.outgoing) (or_raise_lem unsure _ p)
on_reply-outgoing sender a now (telegram_error false text) p =
    ap (λ (q : Post). q.outgoing) (or_raise_lem refused _ p)
on_reply-outgoing sender a now (other_error text) p =
    ap (λ (q : Post). q.outgoing) (or_raise_lem unsure _ p)
on_reply-outgoing sender a now (receipt m c) p =
    elim (Bool-cases (is_none m || not (is_for_chat sender a c))) [
      | inl bad ↦ rw bad (ap (λ (q : Post). q.outgoing) (or_raise_lem unsure _ p))
      | inr good ↦ rw good (ap (λ (q : Post). q.outgoing) (or_else_lem (sent m c) unsure _ p))
    ]

module _ (sender : Sender) (a : Attempt) (now : ℕ) (p : Post) where
  -- An attempt that was open and is prepared now.
  start-Sends :
      (e : RoutineDeliveryEntry) (j : Journal) {w : Answer}
      → is_locked (own a p) ≡ false
      → (has_fault j ≡ true → has_fault p.bank.journal ≡ true)
      → WriteAnswer a.payload.local_date a.attempt_id (moved_entry sending now none none none e) j w
      → Sends sender a p (if_sending sender a now w (with_journal j p)).1
  start-Sends e j free keep (made j' at kept_) = handed _ free out (λ h.
      on_reply-locked sender a now (handed_over a (with_journal j' p)) _ _ at refl (rw (sym out) h))
    where
      out :
          (on_reply sender a now
            (sender.send (handed_over a p).outgoing)
            (handed_over a (with_journal j' p))).1.outgoing
          ≡ p.outgoing ++ message_of a ∷ []
      out = on_reply-outgoing sender a now _ (handed_over a (with_journal j' p))
  start-Sends e j free keep (lost_ j' at fault) =
      held _ refl (let faulty = keep fault in ground arith)
        (λ locked. absurd (let w : true ≡ false = sym locked ∙ free in ground arith))

  prepared-Sends :
      {w : Answer} → Prepares a p.bank.journal w → Sends sender a p (if_prepared sender a now w p).1
  unfolding if_prepared move is_locked
  prepared-Sends (raised x j' at fault) =
      held _ refl (ground arith) (λ locked. ap is_locked at ∙ locked)
  prepared-Sends (settled e j' at done locked_) = by_status e.status at done
    where
      by_status :
          (status : RoutineStatus)
          → own_entry a j' ≡ some (record e { status = status })
          → (status_eq status accepted || status_eq status uncertain) ≡ true
          → Sends sender a p (if_prepared sender a now (ok (record e { status = status }), j') p).1
      by_status prepared at done = absurd (let w : false ≡ true = done in ground arith)
      by_status sending at done = absurd (let w : false ≡ true = done in ground arith)
      by_status failed at done = absurd (let w : false ≡ true = done in ground arith)
      by_status accepted at done = held _ refl (rw locked_ refl) (λ locked. ap is_locked at)
      by_status uncertain at done = held _ refl (rw locked_ refl) (λ locked. ap is_locked at)
  prepared-Sends (opened e j' at new free keep) =
      by_status e.status at (ap (λ s. status_eq s prepared) new)
    where
      by_status :
          (status : RoutineStatus)
          → own_entry a j' ≡ some (record e { status = status })
          → status_eq status prepared ≡ true
          → Sends sender a p (if_prepared sender a now (ok (record e { status = status }), j') p).1
      by_status prepared at new =
          start-Sends (record e { status = prepared }) j' free keep
            (transition-answer _ _ j' (record e { status = prepared }) to_sending now
              (nothing_but none) at refl)
      by_status sending at new = absurd (let w : false ≡ true = new in ground arith)
      by_status failed at new = absurd (let w : false ≡ true = new in ground arith)
      by_status accepted at new = absurd (let w : false ≡ true = new in ground arith)
      by_status uncertain at new = absurd (let w : false ≡ true = new in ground arith)

  -- A call gives the sender nothing, which it does only for an attempt that was locked or if a write
  -- of the journal fails, and a locked attempt stays locked; or it gives it the message of the attempt
  -- once, which was not locked before and is locked afterwards unless the sender refuses the message.
  pub send_attempt-Sends : Sends sender a p (send_attempt sender a now p).1
  unfolding send_attempt
  send_attempt-Sends = prepared-Sends (prepare-Prepares a now p.bank.journal)
