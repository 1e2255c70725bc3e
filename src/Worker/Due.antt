-- ===== src/Worker/Due.antt =====
-- `deliver_due` of src/chc_rental/delivery_worker.py. A turn of the loop reads the
-- world anew, so the loop runs over the list of the worlds that its turns meet, `max_messages` long.
-- That `_reconcile_seen` has changed the files of seen keys is in these worlds; of the ledger it only
-- reads.
use chc_rental.Base.{
  ℕ, ◌+◌, Bool, true, false, ◌&&◌, Option, none, some, List, [], ◌∷◌, leb, ◌==◌, if◌then◌else◌,
}
use chc_rental.Base.Table.{rows_where}
use chc_rental.Base.Raise.{Result, ok, err}
use chc_rental.Models.{Settings}
use chc_rental.Ledger.{Ledger, OutboxRow, pending}
use chc_rental.Ledger.Outbox.{
  contains, outbox_records, claim_due_outbox, release_due_retries, recover_stale_sending,
}
use chc_rental.Worker.{
  World, WorkerConfig, Eligibility, Work, global_gate, eligibility, targets, blocked_by,
  cancel_row_of, deliver_claimed, unless_raised,
}

-- What follows the claim of a turn. The turn that claims nothing ends the loop.
unfoldable pub claimed_turn :
    WorkerConfig → ℕ → World → Option OutboxRow × Ledger → Work → Bool × Result (Unit {0}) × Work
claimed_turn c now w (none, l) k = (false, ok tt, record k { ledger = l })
claimed_turn c now w (some row, l) k =
    let (r, k') = deliver_claimed c row now w (record k { ledger = l }) in (true, r, k')

-- One turn of the loop: does the loop go on, what the turn returned, and what it left.
unfoldable pub turn :
    WorkerConfig → ℕ → List ℕ → Option ℕ → World → Work → Bool × Result (Unit {0}) × Work
turn c now ids selected w k = claimed_turn c now w (claim_due_outbox now ids selected k.ledger) k

-- The rest of the loop runs if the turn went on and raised nothing.
abbrev pub go_on :
    Bool × Result (Unit {0}) × Work → (Work → Result (Unit {0}) × Work) → Result (Unit {0}) × Work
go_on (false, r, k) rest = (r, k)
go_on (true, err e, k) rest = (err e, k)
go_on (true, ok u, k) rest = rest k

-- `for _ in range(max_messages)`
unfoldable pub turns :
    WorkerConfig → ℕ → List ℕ → Option ℕ → List World → Work → Result (Unit {0}) × Work
turns c now ids selected [] k = (ok tt, k)
turns c now ids selected (w ∷ worlds) k =
    go_on (turn c now ids selected w k) (turns c now ids selected worlds)

abbrev pub is_asked : ℕ → List ℕ → Option ℕ → OutboxRow → Bool
is_asked now ids none row = contains ids row.telegram_id && leb row.not_before now
is_asked now ids (some id) row =
    contains ids row.telegram_id && leb row.not_before now && row.outbox_id == id

-- `if eligibility.permanent: … cancel_outbox`
unfoldable pub cancel_if_permanent :
    OutboxRow → Result Eligibility → Work → Result (Unit {0}) × Work
cancel_if_permanent row (err e) k = (err e, k)
cancel_if_permanent row (ok e) k =
    if e.permanent then (ok tt, cancel_row_of row.outbox_id e.reason k) else (ok tt, k)

-- The pass over the pending rows before the first claim, which reads the store for each row anew.
unfoldable pub cancel_invalid :
    Settings → (OutboxRow → World) → List OutboxRow → Work → Result (Unit {0}) × Work
cancel_invalid s before [] k = (ok tt, k)
cancel_invalid s before (row ∷ rows) k =
    unless_raised (cancel_if_permanent row (eligibility row s (before row) k.ledger) k)
      (cancel_invalid s before rows)

-- `recover_stale_sending` and `release_due_retries`, with the count in the report.
unfoldable pub recover : ℕ → ℕ → List ℕ → Work → Work
recover now stale_before ids k =
    let (n, l) = recover_stale_sending now stale_before ids k.ledger in
    record k {
      ledger = (release_due_retries now ids l).1;
      report = record (k.report) { uncertain = k.report.uncertain + n };
    }

-- The part of `deliver_due` after `_reconcile_seen`.
unfoldable pub deliver_targets :
    WorkerConfig
    → ℕ
    → ℕ
    → List ℕ
    → Option ℕ
    → Settings
    → (OutboxRow → World)
    → List World
    → Work
    → Result (Unit {0}) × Work
deliver_targets c now stale_before ids selected s before worlds k =
    let k' = recover now stale_before ids k in
    let rows = rows_where (is_asked now ids selected) (outbox_records (some pending) k'.ledger) in
    unless_raised (cancel_invalid s before rows k') (turns c now ids selected worlds)

-- What `_reconcile_seen` raises of itself: its reading of the settings.
abbrev pub if_read : Result Settings → Work → Result (Unit {0}) × Work
if_read (ok s) k = (ok tt, k)
if_read (err e) k = (err e, k)

unfoldable pub deliver_to :
    WorkerConfig
    → ℕ
    → ℕ
    → Option ℕ
    → Settings
    → World
    → (OutboxRow → World)
    → List World
    → Result (List ℕ)
    → Work
    → Result (Unit {0}) × Work
deliver_to c now stale_before selected s w before worlds (err e) k = (err e, k)
deliver_to c now stale_before selected s w before worlds (ok ids) k = elim (global_gate s) [
  | some gate ↦ (ok tt, blocked_by gate k)
  | none ↦
      unless_raised (if_read w.settings_later k)
        (deliver_targets c now stale_before ids selected s before worlds)
]

unfoldable pub due_under :
    WorkerConfig
    → ℕ
    → ℕ
    → Option (List ℕ)
    → Option ℕ
    → World
    → (OutboxRow → World)
    → List World
    → Result Settings
    → Work
    → Result (Unit {0}) × Work
due_under c now stale_before requested selected w before worlds (err e) k = (err e, k)
due_under c now stale_before requested selected w before worlds (ok s) k =
    deliver_to c now stale_before selected s w before worlds (targets s requested) k

-- `deliver_due`, in the world `w` at its start and those that the rows of its pass and its turns meet.
unfoldable pub deliver_due :
    WorkerConfig
    → ℕ
    → ℕ
    → Option (List ℕ)
    → Option ℕ
    → World
    → (OutboxRow → World)
    → List World
    → Work
    → Result (Unit {0}) × Work
deliver_due c now stale_before requested selected w before worlds k =
    due_under c now stale_before requested selected w before worlds w.settings k
