-- ===== src/Worker/Deliver.antt =====
-- `_deliver_claimed` of src/chc_rental/delivery_worker.py.
use chc_rental.Base.{
  ℕ, ◌+◌, ◌-◌, ◌*◌, ◌^◌, min, String, Bool, true, false, ◌||◌, Option, none, some, [], ◌∷◌, ◌++◌,
  ltb, leb, ◌==◌, if◌then◌else◌,
}
use chc_rental.Base.Raise.{Result, ok, err}
use chc_rental.Models.{get, Listing, Allowlist, AllowlistEntry, Settings}
use chc_rental.Ledger.{Ledger, OutboxRow, OutboxStatus, retry_wait, failed, uncertain}
use chc_rental.Ledger.Outbox.{
  outbox_listing, cancel_outbox, mark_outbox_sent, mark_outbox_failure, return_outbox_to_pending,
}
use chc_rental.Worker.State.{
  SendOutcome, accepted, send_error, unknown_error, World, WorkerConfig, Eligibility,
  DeliveryReport, Work,
}
use chc_rental.Worker.Gates.{listed, eligibility}

-- `if reason not in report.blocked: report.blocked.append(reason)`
abbrev pub blocked_by : String → Work → Work
blocked_by reason k = record k {
  report = record (k.report) {
    blocked =
        if listed reason k.report.blocked
        then k.report.blocked
        else k.report.blocked ++ reason ∷ [];
  };
}

abbrev pub with_ledger : Ledger → Work → Work
with_ledger l k = record k { ledger = l }

abbrev pub one_if : Bool → ℕ
one_if true = 1
one_if false = 0

-- `report.cancelled += int(self.events.cancel_outbox(…))`
unfoldable pub cancel_row_of : ℕ → String → Work → Work
cancel_row_of id reason k =
    let (done, l') = cancel_outbox id reason k.ledger in
    record k {
      ledger = l';
      report = record (k.report) { cancelled = k.report.cancelled + one_if done };
    }

abbrev pub then_ : Result (Unit {0}) → Work → Work → Result (Unit {0}) × Work
then_ (ok u) k k' = (ok tt, k')
then_ (err e) k k' = (err e, k)

-- `return_outbox_to_pending` and the note in the report.
unfoldable pub return_row_of : ℕ → ℕ → String → Option ℕ → Work → Result (Unit {0}) × Work
return_row_of id now reason t k =
    let (r, l') = return_outbox_to_pending id now reason t k.ledger in
    then_ r (with_ledger l' k) (blocked_by reason (with_ledger l' k))

-- `setattr(report, status, getattr(report, status) + 1)`, for the statuses that a failure has.
abbrev pub count_status : OutboxStatus → DeliveryReport → DeliveryReport
count_status retry_wait r = record r { retry_wait = r.retry_wait + 1 }
count_status failed r = record r { failed = r.failed + 1 }
count_status uncertain r = record r { uncertain = r.uncertain + 1 }
count_status _ r = r

abbrev pub counted : Result OutboxStatus → Ledger → Work → Result (Unit {0}) × Work
counted (err e) l k = (err e, with_ledger l k)
counted (ok s) l k = (ok tt, record k { ledger = l; report = count_status s k.report })

unfoldable pub fail_row_of :
    OutboxRow → ℕ → String → String → Option ℕ → Bool → Work → Result (Unit {0}) × Work
fail_row_of row now class message retry_at is_uncertain k =
    let (r, l') =
      mark_outbox_failure row.outbox_id now class message retry_at is_uncertain k.ledger in
    counted r l' k

abbrev pub seconds : ℕ → ℕ
seconds n = n * 1_000_000

-- `exc.retry_after or min(3600, self.retry_base_seconds * (2 ** (row.attempts - 1)))`
abbrev pub delay : WorkerConfig → OutboxRow → Option ℕ → ℕ
delay c row retry_after =
    let backoff = seconds (min 3600 (c.retry_base_seconds * 2 ^ (row.attempts - 1))) in
    elim retry_after [ none ↦ backoff | some t ↦ if t == 0 then backoff else t ]

abbrev pub is_last : WorkerConfig → OutboxRow → Bool → Bool
is_last c row terminal = terminal || leb c.max_attempts row.attempts

-- The branch of `TelegramSendError`.
unfoldable pub on_send_error :
    WorkerConfig → OutboxRow → ℕ → Bool → Bool → Option ℕ → String → Work → Result (Unit {0}) × Work
on_send_error c row now ambiguous terminal retry_after message k =
    if ambiguous
    then fail_row_of row now "telegram_ambiguous" message none true k
    else if is_last c row terminal
    then fail_row_of row now "telegram_terminal" message none false k
    else fail_row_of row now "telegram_retryable" message (some (now + delay c row retry_after))
        false k

abbrev pub marked : OutboxRow → Result Listing → Work → Work
marked row (err e) k = k
marked row (ok l) k = record k {
  seen_marks = k.seen_marks ++ (row.telegram_id, row.identity_key) ∷ [];
}

abbrev pub sent_report : OutboxRow → DeliveryReport → DeliveryReport
sent_report row r = record r {
  sent = r.sent + 1;
  sent_outbox_ids = r.sent_outbox_ids ++ row.outbox_id ∷ [];
}

-- What follows a receipt: the row is marked, then the key; that the latter fails is ignored.
unfoldable pub on_accepted : OutboxRow → ℕ → Option String → Work → Result (Unit {0}) × Work
on_accepted row now message_id k =
    let (r, l') = mark_outbox_sent row.outbox_id now message_id k.ledger in
    then_ r (with_ledger l' k) (
      marked row (outbox_listing row.outbox_id l')
        (record k { ledger = l'; report = sent_report row k.report }))

abbrev pub on_outcome : WorkerConfig → OutboxRow → ℕ → SendOutcome → Work → Result (Unit {0}) × Work
on_outcome c row now (accepted message_id) k = on_accepted row now message_id k
on_outcome c row now (send_error ambiguous terminal retry_after message) k =
    on_send_error c row now ambiguous terminal retry_after message k
on_outcome c row now (unknown_error message) k =
    fail_row_of row now "transport_unknown" message none true k

-- The call of the sender.
unfoldable pub transport : WorkerConfig → OutboxRow → ℕ → World → Work → Result (Unit {0}) × Work
transport c row now w k =
    on_outcome c row now (w.send row.telegram_id row.message_text)
      (record k { sends = k.sends ++ (row.telegram_id, row.message_text) ∷ [] })

-- The second reading does not have the person. The count goes up whether the row was cancelled or not.
unfoldable pub gone : OutboxRow → Work → Work
gone row k = record k {
  ledger = (cancel_outbox row.outbox_id "recipient disappeared before transport" k.ledger).1;
  report = record (k.report) { cancelled = k.report.cancelled + 1 };
}

-- The quiet hours of a person of the second reading, then the sender.
unfoldable pub deliver_person :
    WorkerConfig → OutboxRow → ℕ → World → AllowlistEntry → Work → Result (Unit {0}) × Work
deliver_person c row now w person k =
    let due = w.not_before person.profile now in
    if ltb now due
    then return_row_of row.outbox_id now "recipient is currently in quiet hours" (some due) k
    else transport c row now w k

unfoldable pub deliver_allowed :
    WorkerConfig → OutboxRow → ℕ → World → Result Allowlist → Work → Result (Unit {0}) × Work
deliver_allowed c row now w (err e) k = (err e, k)
deliver_allowed c row now w (ok allowlist) k = elim (get allowlist row.telegram_id) [
  | none ↦ (ok tt, gone row k)
  | some person ↦ deliver_person c row now w person k
]

-- The part after `_eligibility`, which has returned.
unfoldable pub deliver_eligible :
    WorkerConfig → OutboxRow → ℕ → World → Eligibility → Work → Result (Unit {0}) × Work
deliver_eligible c row now w e k =
    if e.eligible
    then deliver_allowed c row now w w.allowlist_later k
    else if e.permanent
    then (ok tt, cancel_row_of row.outbox_id e.reason k)
    else return_row_of row.outbox_id now e.reason none k

unfoldable pub deliver_judged :
    WorkerConfig → OutboxRow → ℕ → World → Result Eligibility → Work → Result (Unit {0}) × Work
deliver_judged c row now w (err e) k = (err e, k)
deliver_judged c row now w (ok e) k = deliver_eligible c row now w e k

unfoldable pub deliver_under :
    WorkerConfig → OutboxRow → ℕ → World → Result Settings → Work → Result (Unit {0}) × Work
deliver_under c row now w (err e) k = (err e, k)
deliver_under c row now w (ok s) k = deliver_judged c row now w (eligibility row s w k.ledger) k

-- `_deliver_claimed`
unfoldable pub deliver_claimed :
    WorkerConfig → OutboxRow → ℕ → World → Work → Result (Unit {0}) × Work
deliver_claimed c row now w k = deliver_under c row now w w.settings k
