-- ===== src/Ledger/Outbox/Enqueue.antt =====
-- `enqueue_shadow` of src/chc_rental/event_store.py.
use chc_rental.Base.{
  ℕ, ◌+◌, String, Bool, true, false, ◌&&◌, not, Option, none, some, List, [], ◌∷◌, ◌++◌, ltb, leb,
  str_eq, if◌then◌else◌,
}
use chc_rental.Base.Table.{count_where, find_where, any_where}
use chc_rental.Base.Raise.{Result, ok, err, integrity}
use chc_rental.Ledger.{
  Ledger, OutboxRow, shadow, cancelled, EventType, new, price_change, material_change,
  repost_candidate,
}
use chc_rental.Ledger.Outbox.Rows.{status_eq, has_key}

-- The CHECK on `outbox.event_type`.
abbrev pub event_type_allowed : EventType → Bool
event_type_allowed new = true
event_type_allowed price_change = true
event_type_allowed material_change = true
event_type_allowed repost_candidate = true
event_type_allowed _ = false

-- The arguments of `enqueue_shadow`.
pub record ShadowIntent : Type 0 where
  pub idempotency_key : String
  pub telegram_id : ℕ
  pub search_id : String
  pub primary_search_name : String
  pub matching_search_ids : List String
  pub identity_key : String
  pub version_hash : String
  pub event_type : EventType
  pub message_text : String
  pub not_before : ℕ
  pub created_at : ℕ
  pub cap_window_start : ℕ
  pub cap_window_end : ℕ
  pub daily_cap : ℕ

pub data EnqueueOutcome : Type 0 where
  queued duplicate cap_reached : EnqueueOutcome

pub record OutboxEnqueueResult : Type 0 where
  pub outcome : EnqueueOutcome
  pub row : Option OutboxRow

-- The rows that use up a slot of a search's daily cap.
abbrev pub uses_slot : String → ℕ → ℕ → OutboxRow → Bool
uses_slot search_id window_start window_end r =
    str_eq r.search_id search_id
    && leb window_start r.created_at
    && ltb r.created_at window_end
    && not (status_eq r.status cancelled)

-- The row that the INSERT of `enqueue_shadow` adds.
abbrev pub shadow_row : ShadowIntent → ℕ → OutboxRow
shadow_row i id = record {
  outbox_id = id;
  idempotency_key = i.idempotency_key;
  telegram_id = i.telegram_id;
  search_id = i.search_id;
  primary_search_name = i.primary_search_name;
  matching_search_ids = i.matching_search_ids;
  identity_key = i.identity_key;
  version_hash = i.version_hash;
  event_type = i.event_type;
  status = shadow;
  message_text = i.message_text;
  not_before = i.not_before;
  attempts = 0;
  last_error = none;
  last_error_class = none;
  created_at = i.created_at;
  claimed_at = none;
  sent_at = none;
  operator_alerted_at = none;
  updated_at = none;
}

-- The foreign key into listing_versions and the CHECKs of the table outbox.
unfoldable pub insertable : ShadowIntent → Ledger → Bool
insertable i l =
    ltb 0 i.telegram_id
    && event_type_allowed i.event_type
    && any_where (λ v. str_eq v.identity_key i.identity_key && str_eq v.version_hash i.version_hash)
        l.listing_versions

abbrev pub with_shadow : ShadowIntent → Ledger → Ledger
with_shadow i l = record l {
  outbox = l.outbox ++ shadow_row i l.next_outbox_id ∷ [];
  next_outbox_id = l.next_outbox_id + 1;
}

-- The INSERT, on a key that is new and with room under the cap.
unfoldable pub insert_shadow : ShadowIntent → Ledger → Result OutboxEnqueueResult × Ledger
insert_shadow i l =
    if insertable i l
    then (
      ok (record { outcome = queued; row = some (shadow_row i l.next_outbox_id) }),
      with_shadow i l,
    )
    else (err integrity, l)

-- The same with the cap tested first.
unfoldable pub enqueue_new : ShadowIntent → Ledger → Result OutboxEnqueueResult × Ledger
enqueue_new i l =
    let used = count_where (uses_slot i.search_id i.cap_window_start i.cap_window_end) l.outbox in
    if leb i.daily_cap used
    then (ok (record { outcome = cap_reached; row = none }), l)
    else insert_shadow i l

unfoldable pub enqueue_shadow : ShadowIntent → Ledger → Result OutboxEnqueueResult × Ledger
enqueue_shadow i l = elim (find_where (has_key i.idempotency_key) l.outbox) [
  | some existing ↦ (ok (record { outcome = duplicate; row = some existing }), l)
  | none ↦ enqueue_new i l
]
