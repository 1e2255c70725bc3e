-- ===== src/Journal/Store.antt =====
-- The methods of src/chc_rental/store.py on the journal of one recipient: `_routine_entry`,
-- `prepare_routine_delivery`, `transition_routine_delivery` and `annotate_routine_delivery`.
use chc_rental.Base.{
  ℕ, String, Bool, true, false, ◌&&◌, ◌||◌, not, Option, none, some, List, [], ◌∷◌, ◌++◌, ◌==◌,
  is_none, if◌then◌else◌,
}
use chc_rental.Base.Table.{find_where}
use chc_rental.Base.Raise.{Result, ok, err, alert_store}
use chc_rental.Journal.{
  RoutineStatus, prepared, sending, accepted, failed, uncertain, Payload, PayloadPatch, JournalRow,
  staged, moved, annotated, RoutineDeliveryEntry, has_attempt, fold_routine_events,
}

-- The journal files of a recipient by day, and what becomes of the writes to come: a write whose turn is `true` raises and leaves the file alone, all others succeed.
pub record Journal : Type 0 where
  pub days : List (ℕ × List JournalRow)
  pub faults : List Bool

-- `_routine_events`
unfoldable pub rows_of : ℕ → List (ℕ × List JournalRow) → List JournalRow
rows_of day [] = []
rows_of day ((d, rows) ∷ days) = if d == day then rows else rows_of day days

-- The file of a day with one more line.
unfoldable pub append_to : ℕ → JournalRow → List (ℕ × List JournalRow) → List (ℕ × List JournalRow)
append_to day r [] = (day, r ∷ []) ∷ []
append_to day r ((d, rows) ∷ days) =
    let rest = append_to day r days in
    if d == day then (d, rows ++ r ∷ []) ∷ days else (d, rows) ∷ rest

-- `_routine_entry`
unfoldable pub routine_entry : ℕ → String → Journal → Option RoutineDeliveryEntry
routine_entry day attempt_id j =
    find_where (has_attempt attempt_id) (fold_routine_events (rows_of day j.days))

abbrev written : ℕ → JournalRow → Journal → List Bool → Journal
written day r j faults = record { days = append_to day r j.days; faults = faults }

-- `_atomic_append`
unfoldable pub atomic_append : ℕ → JournalRow → Journal → Result (Unit {0}) × Journal
atomic_append day r j = elim j.faults [
  | [] ↦ (ok tt, written day r j [])
  | false ∷ faults ↦ (ok tt, written day r j faults)
  | true ∷ faults ↦ (err alert_store, record j { faults = faults })
]

abbrev pub Answer : Type 0
Answer = Result RoutineDeliveryEntry × Journal

-- The entry that is read back; that there is none is the defensive branch of the methods.
unfoldable pub read_back : ℕ → String → Journal → Answer
read_back day attempt_id j = elim (routine_entry day attempt_id j) [
  | none ↦ (err alert_store, j)
  | some e ↦ (ok e, j)
]

-- A line is written, and the entry is read back.
abbrev pub then_read : ℕ → String → Result (Unit {0}) × Journal → Answer
then_read day attempt_id (ok u, j) = read_back day attempt_id j
then_read day attempt_id (err e, j) = (err e, j)

unfoldable pub write : ℕ → String → JournalRow → Journal → Answer
write day attempt_id r j = then_read day attempt_id (atomic_append day r j)

-- The arguments of `prepare_routine_delivery` but the time, with the id and the key that
-- `_routine_attempt_identity` makes of them.
pub record Attempt : Type 0 where
  pub attempt_id : String
  pub attempt_key : String
  pub telegram_id : ℕ
  pub payload : Payload

abbrev stage_row : Attempt → ℕ → JournalRow
stage_row a now = staged a.attempt_id a.attempt_key a.telegram_id now a.payload

abbrev pub interrupted : String
interrupted =
    "recovered an interrupted Telegram send; delivery cannot be confirmed and was not retried"

-- By the status that the attempt has, if it has one.
unfoldable pub prepare_from : Attempt → ℕ → Option RoutineDeliveryEntry → Journal → Answer
prepare_from a now none j = write a.payload.local_date a.attempt_id (stage_row a now) j
prepare_from a now (some e) j = elim e.status [
  | accepted ↦ (ok e, j)
  | uncertain ↦ (ok e, j)
  | sending ↦
      write a.payload.local_date a.attempt_id
        (moved a.attempt_id uncertain now none none (some interrupted)) j
  | failed ↦ write a.payload.local_date a.attempt_id (stage_row a now) j
  | prepared ↦ read_back a.payload.local_date a.attempt_id j
]

unfoldable pub prepare_routine_delivery : Attempt → ℕ → Journal → Answer
prepare_routine_delivery a now j =
    prepare_from a now (routine_entry a.payload.local_date a.attempt_id j) j

-- The states that `transition_routine_delivery` leads to.
pub data Target : Type 0 where
  to_sending to_accepted to_failed to_uncertain : Target

abbrev pub status_of : Target → RoutineStatus
status_of to_sending = sending
status_of to_accepted = accepted
status_of to_failed = failed
status_of to_uncertain = uncertain

abbrev pub status_eq : RoutineStatus → RoutineStatus → Bool
status_eq prepared prepared = true
status_eq sending sending = true
status_eq accepted accepted = true
status_eq failed failed = true
status_eq uncertain uncertain = true
status_eq _ _ = false

-- `allowed_from`
abbrev pub allowed_from : Target → RoutineStatus
allowed_from to_sending = prepared
allowed_from _ = sending

pub record Receipt : Type 0 where
  pub telegram_message_id : Option String
  pub chat_id : Option String
  pub error : Option String

unfoldable pub transition_from :
    ℕ → String → Target → ℕ → Receipt → Option RoutineDeliveryEntry → Journal → Answer
transition_from day attempt_id t now r none j = (err alert_store, j)
transition_from day attempt_id t now r (some e) j =
    if status_eq e.status (status_of t)
    then (ok e, j)
    else if not (status_eq e.status (allowed_from t))
    then (err alert_store, j)
    else write day attempt_id
        (moved attempt_id (status_of t) now r.telegram_message_id r.chat_id r.error) j

unfoldable pub transition_routine_delivery : ℕ → String → Target → ℕ → Receipt → Journal → Answer
transition_routine_delivery day attempt_id t now r j =
    transition_from day attempt_id t now r (routine_entry day attempt_id j) j

abbrev pub is_empty : PayloadPatch → Bool
is_empty p = is_none p.message_text && is_none p.items && is_none p.channel && is_none p.error

unfoldable pub annotate_from :
    ℕ → String → PayloadPatch → Option RoutineDeliveryEntry → Journal → Answer
annotate_from day attempt_id p none j = (err alert_store, j)
annotate_from day attempt_id p (some e) j =
    if is_empty p
    then (ok e, j)
    else if not (status_eq e.status accepted || status_eq e.status uncertain)
    then (err alert_store, j)
    else write day attempt_id (annotated attempt_id p) j

unfoldable pub annotate_routine_delivery : ℕ → String → PayloadPatch → Journal → Answer
annotate_routine_delivery day attempt_id p j =
    annotate_from day attempt_id p (routine_entry day attempt_id j) j
