-- ===== src/Worker/Promote.antt =====
-- `promote` of src/chc_rental/delivery_worker.py.
use chc_rental.Base.{ℕ, ◌+◌, Bool, ◌&&◌, Option, none, some, List, [], ◌∷◌, ◌==◌, if◌then◌else◌}
use chc_rental.Base.Table.{rows_where}
use chc_rental.Base.Raise.{Result, ok, err}
use chc_rental.Models.{Settings}
use chc_rental.Ledger.{OutboxRow, shadow}
use chc_rental.Ledger.Outbox.{contains, outbox_records, promote_shadow}
use chc_rental.Worker.State.{World, Eligibility, Work}
use chc_rental.Worker.Gates.{global_gate, eligibility, targets}
use chc_rental.Worker.Deliver.{blocked_by, one_if, cancel_row_of}

-- `report.promoted += int(self.events.promote_shadow(…))`
unfoldable pub promoted_row_of : ℕ → ℕ → Work → Work
promoted_row_of id now k =
    let (done, l') = promote_shadow id now k.ledger in
    record k {
      ledger = l';
      report = record (k.report) { promoted = k.report.promoted + one_if done };
    }

abbrev pub promote_judged : OutboxRow → ℕ → Result Eligibility → Work → Result (Unit {0}) × Work
promote_judged row now (err e) k = (err e, k)
promote_judged row now (ok e) k =
    if e.eligible
    then (ok tt, promoted_row_of row.outbox_id now k)
    else if e.permanent
    then (ok tt, cancel_row_of row.outbox_id e.reason k)
    else (ok tt, blocked_by e.reason k)

-- A row of `promote`, past the tests of who and which.
unfoldable pub promote_row_of : OutboxRow → ℕ → Settings → World → Work → Result (Unit {0}) × Work
promote_row_of row now s w k = promote_judged row now (eligibility row s w k.ledger) k

abbrev pub asked : List ℕ → Option ℕ → OutboxRow → Bool
asked ids none row = contains ids row.telegram_id
asked ids (some id) row = contains ids row.telegram_id && row.outbox_id == id

-- What comes next, unless an exception was raised.
abbrev pub unless_raised :
    Result (Unit {0}) × Work → (Work → Result (Unit {0}) × Work) → Result (Unit {0}) × Work
unless_raised (ok u, k) rest = rest k
unless_raised (err e, k) rest = (err e, k)

unfoldable pub promote_rows :
    List OutboxRow → ℕ → Settings → (OutboxRow → World) → Work → Result (Unit {0}) × Work
promote_rows [] now s at k = (ok tt, k)
promote_rows (row ∷ rows) now s at k =
    unless_raised (promote_row_of row now s (at row) k) (promote_rows rows now s at)

unfoldable pub promote_to :
    Option ℕ
    → ℕ
    → Settings
    → (OutboxRow → World)
    → Result (List ℕ)
    → Work
    → Result (Unit {0}) × Work
promote_to outbox_id now s at (err e) k = (err e, k)
promote_to outbox_id now s at (ok ids) k = elim (global_gate s) [
  | some gate ↦ (ok tt, blocked_by gate k)
  | none ↦
      promote_rows (rows_where (asked ids outbox_id) (outbox_records (some shadow) k.ledger)) now s
        at k
]

unfoldable pub promote_under :
    Option (List ℕ)
    → Option ℕ
    → ℕ
    → (OutboxRow → World)
    → Result Settings
    → Work
    → Result (Unit {0}) × Work
promote_under requested outbox_id now at (err e) k = (err e, k)
promote_under requested outbox_id now at (ok s) k =
    promote_to outbox_id now s at (targets s requested) k

-- `promote`, in the world `w` at its start and those that its rows meet.
unfoldable pub promote :
    Option (List ℕ) → Option ℕ → ℕ → World → (OutboxRow → World) → Work → Result (Unit {0}) × Work
promote requested outbox_id now w at k = promote_under requested outbox_id now at w.settings k
