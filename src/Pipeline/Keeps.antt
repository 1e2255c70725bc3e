-- ===== src/Pipeline/Keeps.antt =====
-- What the calls of one message keep of the journal.
use chc_rental.Base.{ℕ, true, false, ◌||◌, not, some, Bool-cases, inl, inr, is_none}
use chc_rental.Base.Raise.{ok, err}
use chc_rental.Journal.{RoutineStatus, prepared, sending, accepted, failed, uncertain}
use chc_rental.Journal.Store.{
  Journal, Attempt, Target, to_sending, to_accepted, to_failed, to_uncertain, Receipt, Answer,
  prepare_routine_delivery, transition_routine_delivery,
}
use chc_rental.Pipeline.Send.{
  Reply, telegram_error, other_error, receipt, sent, unsure, refused, Post, Sender, with_journal,
  nothing_but, move, unverified, is_for_chat, on_reply, handed_over, if_sending, if_prepared,
  send_attempt,
}
use chc_rental.Pipeline.Once.{got, or_raise_lem, or_else_lem}

-- A property of the journal that the calls for an attempt keep.
module _ (P : Journal → Type 0) (a : Attempt) (now : ℕ)
    (prepares : (j : Journal) → P j → P (prepare_routine_delivery a now j).1)
    (moves : (t : Target) (r : Receipt) (j : Journal)
      → P j
      → P (transition_routine_delivery a.payload.local_date a.attempt_id t now r j).1)
    (sender : Sender) where
  on_reply-keeps :
      (reply : Reply) (p : Post)
      → P p.bank.journal
      → P (on_reply sender a now reply p).1.bank.journal
  unfolding on_reply move
  on_reply-keeps (telegram_error true text) p h =
      rw (or_raise_lem unsure (move a to_uncertain now (nothing_but (some text)) p) p)
        (moves to_uncertain _ _ h)
  on_reply-keeps (telegram_error false text) p h =
      rw (or_raise_lem refused (move a to_failed now (nothing_but (some text)) p) p)
        (moves to_failed _ _ h)
  on_reply-keeps (other_error text) p h =
      rw (or_raise_lem unsure (move a to_uncertain now (nothing_but (some text)) p) p)
        (moves to_uncertain _ _ h)
  on_reply-keeps (receipt m c) p h = elim (Bool-cases (is_none m || not (is_for_chat sender a c))) [
    | inl bad ↦
        rw (bad, or_raise_lem unsure (move a to_uncertain now (nothing_but (some unverified)) p) p)
          (moves to_uncertain _ _ h)
    | inr good ↦
        rw (good, or_else_lem (sent m c) unsure (move a to_accepted now (got m c) p) p)
          (moves to_accepted _ _ h)
  ]

  if_sending-keeps :
      (w : Answer) (p : Post) → P w.1 → P (if_sending sender a now w p).1.bank.journal
  if_sending-keeps (ok e, j) p h = on_reply-keeps _ (handed_over a (with_journal j p)) h
  if_sending-keeps (err x, j) p h = h

  if_prepared-keeps :
      (w : Answer) (p : Post) → P w.1 → P (if_prepared sender a now w p).1.bank.journal
  unfolding if_prepared move
  if_prepared-keeps (err x, j) p h = h
  if_prepared-keeps (ok e, j) p h = by_status e.status
    where
      by_status :
          (status : RoutineStatus)
          → P (if_prepared sender a now (ok (record e { status = status }), j) p).1.bank.journal
      by_status prepared = if_sending-keeps _ _ (moves to_sending _ _ h)
      by_status sending = if_sending-keeps _ _ (moves to_sending _ _ h)
      by_status failed = if_sending-keeps _ _ (moves to_sending _ _ h)
      by_status accepted = h
      by_status uncertain = h

  pub send_attempt-keeps :
      (p : Post) → P p.bank.journal → P (send_attempt sender a now p).1.bank.journal
  unfolding send_attempt
  send_attempt-keeps p h = if_prepared-keeps _ p (prepares _ h)
