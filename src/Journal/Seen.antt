-- ===== src/Journal/Seen.antt =====
-- The ledger of seen keys of one recipient of src/chc_rental/store.py, with the journal beside it:
-- `_seen_keys_from_path`, `active_seen_keys`, `record_delivery`, `mark_notified`, `last_sent_at` and
-- `reconcile_routine_seen`. A cutoff stops at the start of the count of time.
use chc_rental.Base.{
  ℕ, ◌+◌, ◌-◌, ◌*◌, ◌/◌, max, String, append, Bool, true, false, ◌&&◌, ◌||◌, not, Option, none,
  some, List, [], ◌∷◌, ◌++◌, map, leb, ◌==◌, str_eq, if◌then◌else◌,
}
use chc_rental.Base.Table.{rows_where, any_where, ordered_by}
use chc_rental.Base.Raise.{Result, ok, err, alert_store}
use chc_rental.Text.{Text}
use chc_rental.Journal.{
  DeliveryChannel, scheduled, test, RoutineDeliveryItem, JournalRow, RoutineDeliveryEntry,
  is_accepted, is_listing, RoutineDeliveryDay, fold_routine_events, group_routine_days,
}
use chc_rental.Journal.Store.{Journal}

-- A line of the seen file: what does not parse is absent, a damaged line has neither key nor time.
pub record SeenRow : Type 0 where
  pub key : Option String
  pub search : Text
  pub url : String
  pub sent_at : Option ℕ
  pub channel : Option DeliveryChannel
  pub repeat_override : Bool
  pub telegram_message_id : Option String
  pub chat_id : Option String

-- The two files of a recipient; a lost write is one of `journal.faults`. The file of seen keys may be
-- missing.
pub record Bank : Type 0 where
  pub journal : Journal
  pub seen : Option (List SeenRow)

-- The lines of the seen file, none if it is missing.
abbrev pub lines_of : Option (List SeenRow) → List SeenRow
lines_of none = []
lines_of (some seen) = seen

abbrev pub day_length : ℕ
day_length = 86_400_000_000

-- `_delivery_record_is_active`
unfoldable pub delivery_record_is_active : Option ℕ → SeenRow → Bool
delivery_record_is_active cutoff r = if r.repeat_override then false else elim cutoff [
  | none ↦ true
  | some c ↦ elim r.sent_at [ none ↦ true | some stamp ↦ leb c stamp ]
]

abbrev pub cons_some {ℓ} : {A : Type ℓ} → Option A → List A → List A
cons_some none xs = xs
cons_some (some x) xs = x ∷ xs

-- `_seen_keys_from_path`
unfoldable pub seen_keys_from : Option ℕ → List SeenRow → List String
seen_keys_from cutoff [] = []
seen_keys_from cutoff (r ∷ seen) =
    let rest = seen_keys_from cutoff seen in
    if delivery_record_is_active cutoff r then cons_some r.key rest else rest

-- The start of the UTC day that is `retention` days back.
abbrev pub day_cutoff : ℕ → ℕ → Option ℕ
day_cutoff retention now =
    if retention == 0 then none else some ((now / day_length - retention) * day_length)

abbrev pub time_cutoff : ℕ → ℕ → Option ℕ
time_cutoff retention now = if retention == 0 then none else some (now - retention * day_length)

abbrev pub by_day : ℕ × List JournalRow → ℕ × List JournalRow → Bool
by_day d e = leb d.0 e.0

unfoldable pub entries_of : List (ℕ × List JournalRow) → List RoutineDeliveryEntry
entries_of [] = []
entries_of ((day, rows) ∷ days) = fold_routine_events rows ++ entries_of days

-- `_routine_entries_since`
unfoldable pub routine_entries_since : Option ℕ → Journal → List RoutineDeliveryEntry
routine_entries_since none j = entries_of (ordered_by by_day j.days)
routine_entries_since (some cutoff) j =
    rows_where (λ e. leb cutoff e.updated_at) (entries_of (ordered_by by_day j.days))

abbrev pub is_scheduled : DeliveryChannel → Bool
is_scheduled scheduled = true
is_scheduled _ = false

abbrev pub is_test : Option DeliveryChannel → Bool
is_test (some test) = true
is_test _ = false

-- The entries that suppress their items.
abbrev pub counts_as_seen : RoutineDeliveryEntry → Bool
counts_as_seen e =
    is_accepted e.status && is_listing e.payload.kind && is_scheduled e.payload.channel

unfoldable pub keys_of : List RoutineDeliveryEntry → List String
keys_of [] = []
keys_of (e ∷ entries) =
    (if counts_as_seen e then map (λ i. i.key) e.payload.items else []) ++ keys_of entries

-- `routine_accepted_keys`
unfoldable pub routine_accepted_keys : ℕ → ℕ → Journal → List String
routine_accepted_keys retention now j =
    keys_of (routine_entries_since (time_cutoff retention now) j)

-- `active_seen_keys`, as a list that may name a key twice.
unfoldable pub active_seen_keys : ℕ → ℕ → Bank → List String
active_seen_keys retention now b =
    seen_keys_from (day_cutoff retention now) (lines_of b.seen)
    ++ routine_accepted_keys retention now b.journal

-- `routine_delivery_days`, once the legacy rows are imported.
unfoldable pub routine_delivery_days : ℕ → ℕ → Journal → List RoutineDeliveryDay
routine_delivery_days retention now j =
    group_routine_days (routine_entries_since (some (now - retention * day_length)) j)

abbrev pub with_line : SeenRow → Option (List SeenRow) → Option (List SeenRow)
with_line r seen = some (lines_of seen ++ r ∷ [])

-- `_atomic_append` to the seen file, which it creates.
unfoldable pub append_seen : SeenRow → Bank → Result (Unit {0}) × Bank
append_seen r b = elim b.journal.faults [
  | [] ↦ (ok tt, record b { seen = with_line r b.seen })
  | false ∷ faults ↦
      (ok tt, record { journal = record b.journal { faults = faults }; seen = with_line r b.seen })
  | true ∷ faults ↦ (err alert_store, record b { journal = record b.journal { faults = faults } })
]

-- The arguments of `record_delivery` but the time.
pub record Delivery : Type 0 where
  pub key : String
  pub search_name : Text
  pub url : String
  pub channel : DeliveryChannel
  pub telegram_message_id : Option String
  pub chat_id : Option String
  pub repeat_override : Bool

abbrev pub seen_row : Delivery → ℕ → SeenRow
seen_row d now = record {
  key = some d.key;
  search = d.search_name;
  url = d.url;
  sent_at = some now;
  channel = some d.channel;
  repeat_override = d.repeat_override;
  telegram_message_id = d.telegram_message_id;
  chat_id = d.chat_id;
}

abbrev pub done_as : Bool → Result (Unit {0}) × Bank → Result Bool × Bank
done_as done (ok u, b) = (ok done, b)
done_as done (err e, b) = (err e, b)

-- `record_delivery`, also `mark_seen`; that its channel is one of the three is in the type.
unfoldable pub record_delivery : ℕ → Delivery → ℕ → Bank → Result Bool × Bank
record_delivery retention d now b =
    if not d.repeat_override
      && any_where (str_eq d.key) (seen_keys_from (day_cutoff retention now) (lines_of b.seen))
    then (ok false, b)
    else done_as true (append_seen (seen_row d now) b)

-- `mark_notified`, where `isoformat` writes the date of a day.
unfoldable pub mark_notified : (ℕ → String) → ℕ → Bank → Result (Unit {0}) × Bank
mark_notified isoformat now b =
    append_seen
      (record {
        key = some (append "notice:" (isoformat (now / day_length)));
        search = [];
        url = "";
        sent_at = some now;
        channel = some scheduled;
        repeat_override = false;
        telegram_message_id = none;
        chat_id = none;
      })
      b

abbrev pub later : Option ℕ → ℕ → Option ℕ
later none t = some t
later (some s) t = some (max s t)

abbrev pub later_of : Option ℕ → Option ℕ → Option ℕ
later_of latest none = latest
later_of latest (some t) = later latest t

unfoldable pub latest_seen : List SeenRow → Option ℕ → Option ℕ
latest_seen [] latest = latest
latest_seen (r ∷ seen) latest =
    latest_seen seen
      (if is_test r.channel || r.repeat_override then latest else later_of latest r.sent_at)

unfoldable pub latest_accepted : List RoutineDeliveryEntry → Option ℕ → Option ℕ
latest_accepted [] latest = latest
latest_accepted (e ∷ entries) latest =
    latest_accepted entries (if is_accepted e.status then later latest e.updated_at else latest)

-- `last_sent_at`: without a seen file there is none, whatever the journal holds.
unfoldable pub last_sent_at : Bank → Option ℕ
last_sent_at b = elim b.seen [
  | none ↦ none
  | some seen ↦ latest_accepted (routine_entries_since none b.journal) (latest_seen seen none)
]

abbrev pub delivery_of : RoutineDeliveryEntry → RoutineDeliveryItem → Delivery
delivery_of e i = record {
  key = i.key;
  search_name = i.search_name;
  url = i.url;
  channel = scheduled;
  telegram_message_id = e.telegram_message_id;
  chat_id = e.chat_id;
  repeat_override = false;
}

-- Calls one after the other, until one raises.
abbrev pub and_then {ℓ κ} :
    {A : Type ℓ} {B : Type κ} → Result A × Bank → (A → Bank → Result B × Bank) → Result B × Bank
and_then (ok a, b) f = f a b
and_then (err e, b) f = (err e, b)

abbrev pub one_more : Bool → ℕ → ℕ
one_more true n = n + 1
one_more false n = n

unfoldable pub mark_items :
    ℕ → RoutineDeliveryEntry → List RoutineDeliveryItem → ℕ → Bank → Result ℕ × Bank
mark_items retention e [] repaired b = (ok repaired, b)
mark_items retention e (i ∷ items) repaired b =
    and_then (record_delivery retention (delivery_of e i) e.updated_at b)
      (λ fresh b'. mark_items retention e items (one_more fresh repaired) b')

unfoldable pub mark_entries : ℕ → List RoutineDeliveryEntry → ℕ → Bank → Result ℕ × Bank
mark_entries retention [] repaired b = (ok repaired, b)
mark_entries retention (e ∷ entries) repaired b =
    and_then (mark_items retention e (if counts_as_seen e then e.payload.items else []) repaired b)
      (λ n b'. mark_entries retention entries n b')

-- `reconcile_routine_seen`
unfoldable pub reconcile_routine_seen : ℕ → ℕ → Bank → Result ℕ × Bank
reconcile_routine_seen retention now b =
    mark_entries retention (routine_entries_since (time_cutoff retention now) b.journal) 0 b
