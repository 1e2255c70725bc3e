-- ===== src/Journal.antt =====
-- The journal of routine deliveries: the records and the fold of src/chc_rental/delivery_history.py.
-- `Store` has the methods of src/chc_rental/store.py on it, `Seen` those on the ledger of seen keys.
pub mod Store
pub mod Seen
pub mod Folds
pub mod Answers
pub mod Machine
pub mod Calls
pub mod Tests
use chc_rental.Base.{
  ℕ, ◌+◌, String, Bool, true, false, ◌&&◌, ◌||◌, not, Option, none, some, List, [], ◌∷◌, ◌++◌, map,
  length, leb, ◌==◌, str_eq, if◌then◌else◌,
}
use chc_rental.Base.Table.{update_where, count_where, rows_where, any_where, ordered_by}
use chc_rental.Text.{Text}

pub data RoutineStatus : Type 0 where
  prepared sending accepted failed uncertain : RoutineStatus

pub data DeliveryKind : Type 0 where
  listing notice : DeliveryKind

pub data DeliveryChannel : Type 0 where
  scheduled test incremental : DeliveryChannel

pub record RoutineDeliveryItem : Type 0 where
  pub key : String
  pub search_name : Text
  pub url : String
  pub address : Option Text
  pub unit : Option Text
  pub city : Option Text
  pub district : Option Text
  pub price : Option ℕ
  pub beds : Option ℕ
  pub baths : Option ℕ
  pub sqft : Option ℕ
  pub source : Option String

pub record Payload : Type 0 where
  pub display_name : Text
  pub timezone : String
  pub local_date : ℕ
  pub kind : DeliveryKind
  pub message_text : String
  pub items : List RoutineDeliveryItem
  pub legacy : Bool
  pub channel : DeliveryChannel

-- `payload_patch`: what an annotation changes.
pub record PayloadPatch : Type 0 where
  pub message_text : Option String
  pub items : Option (List RoutineDeliveryItem)
  pub channel : Option DeliveryChannel
  pub error : Option String

-- A line of a journal file: an event of each kind, or a line that the fold ignores.
pub data JournalRow : Type 0 where
  damaged : JournalRow
  staged : String → String → ℕ → ℕ → Payload → JournalRow
  moved : String → RoutineStatus → ℕ → Option String → Option String → Option String → JournalRow
  annotated : String → PayloadPatch → JournalRow

pub record RoutineDeliveryEntry : Type 0 where
  pub attempt_id : String
  pub attempt_key : String
  pub telegram_id : ℕ
  pub payload : Payload
  pub status : RoutineStatus
  pub prepared_at : ℕ
  pub updated_at : ℕ
  pub telegram_message_id : Option String
  pub chat_id : Option String
  pub error : Option String

abbrev pub has_attempt : String → RoutineDeliveryEntry → Bool
has_attempt attempt_id e = str_eq e.attempt_id attempt_id

abbrev pub new_entry : String → String → ℕ → ℕ → Payload → RoutineDeliveryEntry
new_entry attempt_id attempt_key telegram_id at payload = record {
  attempt_id = attempt_id;
  attempt_key = attempt_key;
  telegram_id = telegram_id;
  payload = payload;
  status = prepared;
  prepared_at = at;
  updated_at = at;
  telegram_message_id = none;
  chat_id = none;
  error = none;
}

-- `a if a is not None else b`
abbrev pub or_kept {ℓ} : {A : Type ℓ} → Option A → Option A → Option A
or_kept none old = old
or_kept (some a) old = some a

abbrev pub or_old {ℓ} : {A : Type ℓ} → Option A → A → A
or_old none old = old
or_old (some a) old = a

abbrev pub moved_entry :
    RoutineStatus
    → ℕ
    → Option String
    → Option String
    → Option String
    → RoutineDeliveryEntry
    → RoutineDeliveryEntry
moved_entry status at message_id chat_id error e = record e {
  status = status;
  updated_at = at;
  telegram_message_id = or_kept message_id e.telegram_message_id;
  chat_id = or_kept chat_id e.chat_id;
  error = or_kept error e.error;
}

abbrev pub patched_entry : PayloadPatch → RoutineDeliveryEntry → RoutineDeliveryEntry
patched_entry p e = record e {
  payload = record e.payload {
    message_text = or_old p.message_text e.payload.message_text;
    items = or_old p.items e.payload.items;
    channel = or_old p.channel e.payload.channel;
  };
  error = or_kept p.error e.error;
}

-- One event: a staged attempt takes the place of the one of its id, or the last place.
unfoldable pub fold_event : JournalRow → List RoutineDeliveryEntry → List RoutineDeliveryEntry
fold_event damaged attempts = attempts
fold_event (staged id key telegram_id at payload) attempts =
    if any_where (has_attempt id) attempts
    then update_where (has_attempt id) (λ _. new_entry id key telegram_id at payload) attempts
    else attempts ++ new_entry id key telegram_id at payload ∷ []
fold_event (moved id status at message_id chat_id error) attempts =
    update_where (has_attempt id) (moved_entry status at message_id chat_id error) attempts
fold_event (annotated id patch) attempts =
    update_where (has_attempt id) (patched_entry patch) attempts

unfoldable pub fold_from : List JournalRow → List RoutineDeliveryEntry → List RoutineDeliveryEntry
fold_from [] attempts = attempts
fold_from (r ∷ rows) attempts = fold_from rows (fold_event r attempts)

unfoldable pub fold_routine_events : List JournalRow → List RoutineDeliveryEntry
fold_routine_events rows = fold_from rows []

-- `visible_in_diary`
unfoldable pub visible_in_diary : RoutineDeliveryEntry → Bool
visible_in_diary e = elim e.status [ accepted ↦ true | uncertain ↦ true | _ ↦ false ]

abbrev pub is_accepted : RoutineStatus → Bool
is_accepted accepted = true
is_accepted _ = false

abbrev is_uncertain : RoutineStatus → Bool
is_uncertain uncertain = true
is_uncertain _ = false

abbrev pub is_listing : DeliveryKind → Bool
is_listing listing = true
is_listing notice = false

pub record RoutineDeliveryDay : Type 0 where
  pub local_date : ℕ
  pub entries : List RoutineDeliveryEntry

unfoldable items_in : List RoutineDeliveryEntry → ℕ
items_in [] = 0
items_in (e ∷ entries) =
    (if is_accepted e.status && is_listing e.payload.kind then length e.payload.items else 0)
    + items_in entries

unfoldable pub listing_count : RoutineDeliveryDay → ℕ
unfolding items_in
listing_count d = items_in d.entries

unfoldable pub notice_count : RoutineDeliveryDay → ℕ
notice_count d =
    count_where (λ e. is_accepted e.status && not (is_listing e.payload.kind)) d.entries

unfoldable pub uncertain_count : RoutineDeliveryDay → ℕ
uncertain_count d = count_where (λ e. is_uncertain e.status) d.entries

-- `grouped.setdefault(entry.local_date, []).append(entry)`
unfoldable pub add_to_day : RoutineDeliveryEntry → List RoutineDeliveryDay → List RoutineDeliveryDay
add_to_day e [] = record { local_date = e.payload.local_date; entries = e ∷ [] } ∷ []
add_to_day e (d ∷ days) =
    let rest = add_to_day e days in
    if d.local_date == e.payload.local_date
    then record d { entries = d.entries ++ e ∷ [] } ∷ days
    else d ∷ rest

unfoldable pub grouped :
    List RoutineDeliveryEntry → List RoutineDeliveryDay → List RoutineDeliveryDay
grouped [] days = days
grouped (e ∷ entries) days =
    grouped entries (if visible_in_diary e then add_to_day e days else days)

abbrev pub by_update : RoutineDeliveryEntry → RoutineDeliveryEntry → Bool
by_update d e = leb d.updated_at e.updated_at

abbrev pub with_sorted : RoutineDeliveryDay → RoutineDeliveryDay
with_sorted d = record d { entries = ordered_by by_update d.entries }

abbrev pub later_first : RoutineDeliveryDay → RoutineDeliveryDay → Bool
later_first d e = leb e.local_date d.local_date

-- The latest day first, and in a day the entry that changed first.
unfoldable pub group_routine_days : List RoutineDeliveryEntry → List RoutineDeliveryDay
group_routine_days entries = map with_sorted (ordered_by later_first (grouped entries []))
