-- ===== src/Worker/Reconcile.antt =====
-- `_reconcile_seen` of src/chc_rental/delivery_worker.py, which writes the keys of sent rows to the
-- files of their recipients, and `run`.
use chc_rental.Base.{
  ℕ, ◌+◌, String, Bool, false, ◌||◌, not, Option, none, some, List, [], ◌∷◌, map, ltb, ◌==◌,
  if◌then◌else◌,
}
use chc_rental.Base.Str.{codes}
use chc_rental.Base.Raise.{Result, ok, err}
use chc_rental.Models.{Listing}
use chc_rental.Ledger.{Ledger, OutboxRow, sent}
use chc_rental.Ledger.Outbox.{contains, outbox_records, outbox_listing}
use chc_rental.Journal.{incremental}
use chc_rental.Journal.Seen.{Bank, lines_of, Delivery, seen_keys_from, time_cutoff, record_delivery}
use chc_rental.Worker.State.{World, WorkerConfig, Work}
use chc_rental.Worker.Gates.{listed}
use chc_rental.Worker.Promote.{unless_raised, promote}
use chc_rental.Worker.Due.{deliver_due}

-- `reconciled`, and the files of the recipients.
abbrev pub Reconciled : Type 0
Reconciled = ℕ × (ℕ → Bank)

abbrev pub row_delivery : OutboxRow → Listing → Delivery
row_delivery row l = record {
  key = row.identity_key;
  search_name = codes row.primary_search_name;
  url = l.url;
  channel = incremental;
  telegram_message_id = none;
  chat_id = none;
  repeat_override = false;
}

abbrev pub with_bank : ℕ → Bank → (ℕ → Bank) → ℕ → Bank
with_bank id b banks n = if n == id then b else banks n

-- A write that raises is not counted; one that finds the key there is.
abbrev pub marked_as : ℕ → Result Bool × Bank → Reconciled → Reconciled
marked_as id (ok fresh, b) (n, banks) = (n + 1, with_bank id b banks)
marked_as id (err e, b) (n, banks) = (n, with_bank id b banks)

unfoldable pub mark_row : ℕ → OutboxRow → ℕ → Ledger → Reconciled → Reconciled
mark_row retention row sent_at l r = elim (outbox_listing row.outbox_id l) [
  | err e ↦ r
  | ok listing ↦
      marked_as row.telegram_id
        (record_delivery retention (row_delivery row listing) sent_at (r.1 row.telegram_id)) r
]

abbrev pub is_before : Option ℕ → ℕ → Bool
is_before none t = false
is_before (some cutoff) t = ltb t cutoff

unfoldable pub reconcile_row :
    (String → String) → ℕ → ℕ → List ℕ → Ledger → OutboxRow → Reconciled → Reconciled
reconcile_row upgrade retention now targets l row r = elim row.sent_at [
  | none ↦ r
  | some sent_at ↦
      if not (contains targets row.telegram_id)
        || is_before (time_cutoff retention now) sent_at
        || listed row.identity_key
            (map upgrade (seen_keys_from none (lines_of (r.1 row.telegram_id).seen)))
      then r
      else mark_row retention row sent_at l r
]

unfoldable pub reconcile_rows :
    (String → String) → ℕ → ℕ → List ℕ → Ledger → List OutboxRow → Reconciled → Reconciled
reconcile_rows upgrade retention now targets l [] r = r
reconcile_rows upgrade retention now targets l (row ∷ rows) r =
    reconcile_rows upgrade retention now targets l rows
      (reconcile_row upgrade retention now targets l row r)

-- `_reconcile_seen`
unfoldable pub reconcile_seen :
    (String → String) → ℕ → ℕ → List ℕ → Ledger → (ℕ → Bank) → Reconciled
reconcile_seen upgrade retention now targets l banks =
    reconcile_rows upgrade retention now targets l (outbox_records (some sent) l) (0, banks)

-- `run`: a promotion and a delivery, whose counts go into one report.
unfoldable pub run :
    WorkerConfig
    → ℕ
    → ℕ
    → Option (List ℕ)
    → Option ℕ
    → World
    → (OutboxRow → World)
    → World
    → (OutboxRow → World)
    → List World
    → Work
    → Result (Unit {0}) × Work
run c now stale_before requested outbox_id w at w' before worlds k =
    unless_raised (promote requested outbox_id now w at k)
      (deliver_due c now stale_before requested outbox_id w' before worlds)
