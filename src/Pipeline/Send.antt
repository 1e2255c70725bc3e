-- ===== src/Pipeline/Send.antt =====
-- One message of src/chc_rental/pipeline.py from the journal to Telegram and back, as `deliver` and
-- `send_routine_notice` both do it.
use chc_rental.Base.{
  ℕ, String, Bool, true, false, ◌||◌, not, Option, none, some, List, [], ◌∷◌, ◌++◌, is_none, str_eq,
  if◌then◌else◌,
}
use chc_rental.Base.Raise.{Result, ok, err}
use chc_rental.Journal.{accepted, uncertain}
use chc_rental.Journal.Store.{
  Journal, Attempt, Target, to_sending, to_accepted, to_failed, to_uncertain, Receipt, Answer,
  prepare_routine_delivery, transition_routine_delivery,
}
use chc_rental.Journal.Seen.{Bank}

-- What `sender.send` does: `TelegramSendError` with its flag and text, another exception with its
-- text, or a receipt with the ids that `_receipt_values` finds in it.
pub data Reply : Type 0 where
  telegram_error : Bool → String → Reply
  other_error : String → Reply
  receipt : Option String → Option String → Reply

-- How a message ended; a message that was sent has its two ids.
pub data Outcome : Type 0 where
  sent : Option String → Option String → Outcome
  already_sent refused unsure : Outcome

-- A message as the sender is given it, and the attempt that it belongs to.
pub record Message : Type 0 where
  pub local_date : ℕ
  pub attempt_id : String
  pub telegram_id : ℕ
  pub text : String

-- The files of one recipient and the messages that were handed to the sender.
pub record Post : Type 0 where
  pub bank : Bank
  pub outgoing : List Message

-- What the sender answers, by the messages so far, the last of which it is given.
pub record Sender : Type 0 where
  pub send : List Message → Reply
  -- `str(telegram_id)`
  pub chat_text : ℕ → String

abbrev pub Sent : Type 0
Sent = Result Outcome × Post

abbrev pub with_journal : Journal → Post → Post
with_journal j p = record p { bank = record p.bank { journal = j } }

abbrev pub nothing_but : Option String → Receipt
nothing_but error = record { telegram_message_id = none; chat_id = none; error = error }

-- The outcome, unless the call on the journal raised.
abbrev pub or_raise : Outcome → Answer → Post → Sent
or_raise o (ok e, j) p = (ok o, with_journal j p)
or_raise o (err x, j) p = (err x, with_journal j p)

abbrev pub or_else : Outcome → Outcome → Answer → Post → Sent
or_else o o' (ok e, j) p = (ok o, with_journal j p)
or_else o o' (err x, j) p = (ok o', with_journal j p)

unfoldable pub move : Attempt → Target → ℕ → Receipt → Post → Answer
move a t now r p =
    transition_routine_delivery a.payload.local_date a.attempt_id t now r p.bank.journal

abbrev pub unverified : String
unverified = "Telegram accepted the request without a verifiable recipient receipt"

abbrev pub is_for_chat : Sender → Attempt → Option String → Bool
is_for_chat sender a none = false
is_for_chat sender a (some c) = str_eq c (sender.chat_text a.telegram_id)

-- What follows the call of the sender.
unfoldable pub on_reply : Sender → Attempt → ℕ → Reply → Post → Sent
on_reply sender a now (telegram_error true text) p =
    or_raise unsure (move a to_uncertain now (nothing_but (some text)) p) p
on_reply sender a now (telegram_error false text) p =
    or_raise refused (move a to_failed now (nothing_but (some text)) p) p
on_reply sender a now (other_error text) p =
    or_raise unsure (move a to_uncertain now (nothing_but (some text)) p) p
on_reply sender a now (receipt message_id chat_id) p =
    if is_none message_id || not (is_for_chat sender a chat_id)
    then or_raise unsure (move a to_uncertain now (nothing_but (some unverified)) p) p
    else or_else (sent message_id chat_id) unsure
        (move a to_accepted now
          (record { telegram_message_id = message_id; chat_id = chat_id; error = none }) p)
        p

abbrev pub message_of : Attempt → Message
message_of a = record {
  local_date = a.payload.local_date;
  attempt_id = a.attempt_id;
  telegram_id = a.telegram_id;
  text = a.payload.message_text;
}

abbrev pub handed_over : Attempt → Post → Post
handed_over a p = record p { outgoing = p.outgoing ++ message_of a ∷ [] }

abbrev pub if_sending : Sender → Attempt → ℕ → Answer → Post → Sent
if_sending sender a now (err x, j) p = (ok refused, with_journal j p)
if_sending sender a now (ok e, j) p =
    on_reply sender a now (sender.send (handed_over a p).outgoing)
      (handed_over a (with_journal j p))

-- By the status that the attempt has once it is prepared.
unfoldable pub if_prepared : Sender → Attempt → ℕ → Answer → Post → Sent
if_prepared sender a now (err x, j) p = (ok refused, with_journal j p)
if_prepared sender a now (ok e, j) p = elim e.status [
  | accepted ↦ (ok already_sent, with_journal j p)
  | uncertain ↦ (ok unsure, with_journal j p)
  | _ ↦
      if_sending sender a now (move a to_sending now (nothing_but none) (with_journal j p))
        (with_journal j p)
]

unfoldable pub send_attempt : Sender → Attempt → ℕ → Post → Sent
send_attempt sender a now p =
    if_prepared sender a now (prepare_routine_delivery a now p.bank.journal) p
