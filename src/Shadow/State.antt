-- ===== src/Shadow/State.antt =====
-- What the planning of shadow rows reads and reports, and the intent for an event and a person:
-- src/chc_rental/outbox.py and src/chc_rental/events.py.
use chc_rental.Base.{
  map, ℕ, String, append, Bool, ◌&&◌, Option, none, some, List, [], ◌∷◌, ◌==◌, if◌then◌else◌,
}
use chc_rental.Base.Table.{rows_where}
use chc_rental.Models.{Search, active_searches, AllowlistEntry, Allowlist, Listing}
use chc_rental.Matching.{matches_search}
use chc_rental.Schedule.{Zones, local_day_window_utc, notification_not_before}
use chc_rental.Ledger.{EventType}
use chc_rental.Ledger.Outbox.{ShadowIntent}
use chc_rental.Planner.Incremental.{QueryWatch, Hashing, given_id}
use chc_rental.Worker.{is_matching}
use chc_rental.Collector.State.{Raw}
use chc_rental.Journal.Seen.{Bank, active_seen_keys}
use chc_rental.Pipeline.Plan.{PlannedPush}
use chc_rental.Pipeline.Deliver.{Formats, render}

pub record Shadowing : Type 0 where
  pub allowlist : Allowlist
  pub hashing : Hashing
  pub zones : Zones
  pub formats : Formats
  pub validate : Raw → Option Listing
  pub dedup_key : Listing → String
  pub material_version_hash : Listing → String
  pub event_digest : ℕ → String → EventType → String → String
  pub banks : ℕ → Bank
  pub seen_retention_days : ℕ
  pub upgrade_seen_key : String → String

pub record ListingEvent : Type 0 where
  pub event_type : EventType
  pub identity_key : String
  pub version_hash : String
  pub listing : Listing

pub record ObservationReport : Type 0 where
  pub query_id : String
  pub run_id : String
  pub baseline_established : Bool
  pub validated : ℕ
  pub rejected : ℕ
  pub events : List ListingEvent

pub record ShadowOutboxReport : Type 0 where
  pub queued : ℕ
  pub duplicates : ℕ
  pub cap_suppressed : ℕ
  pub legacy_seen_suppressed : ℕ
  pub unmatched : ℕ

-- The keys that a recipient has seen, in today's form.
unfoldable pub already_seen : Shadowing → ℕ → ℕ → List String
already_seen w now telegram_id =
    map w.upgrade_seen_key (active_seen_keys w.seen_retention_days now (w.banks telegram_id))

-- `_idempotency_key`
abbrev pub idempotency_key_of : Shadowing → ListingEvent → ℕ → String
idempotency_key_of w e telegram_id =
    append "alert:" (w.event_digest telegram_id e.identity_key e.event_type e.version_hash)

-- `watches_by_person.setdefault(watch.telegram_id, set()).add(watch.search_id)`
unfoldable pub add_watched : QueryWatch → List (ℕ × List String) → List (ℕ × List String)
add_watched q [] = (q.telegram_id, q.search_id ∷ []) ∷ []
add_watched q ((id, ids) ∷ groups) =
    let rest = add_watched q groups in
    if id == q.telegram_id then (id, q.search_id ∷ ids) ∷ groups else (id, ids) ∷ rest

unfoldable pub watches_by_person : List QueryWatch → List (ℕ × List String) → List (ℕ × List String)
watches_by_person [] groups = groups
watches_by_person (q ∷ watches) groups = watches_by_person watches (add_watched q groups)

-- The active searches of a person that are watched and match.
unfoldable pub wanted_searches : ListingEvent → List String → AllowlistEntry → List Search
wanted_searches e ids person =
    rows_where (λ s. is_matching ids s && matches_search e.listing s)
      (active_searches person.profile)

unfoldable pub matching_ids : List Search → List String
matching_ids [] = []
matching_ids (s ∷ searches) = elim (given_id s) [
  | none ↦ matching_ids searches
  | some id ↦ id ∷ matching_ids searches
]

abbrev pub intent_for :
    Shadowing → ListingEvent → ℕ → AllowlistEntry → List String → Search → String → ShadowIntent
intent_for w e now person ids s id =
    let window = local_day_window_utc w.zones person.profile now in
    let push : PlannedPush = record {
      telegram_id = person.telegram_id;
      display_name = person.display_name;
      search_name = s.name;
      key = e.identity_key;
      listing = e.listing;
    } in
    record {
      idempotency_key = idempotency_key_of w e person.telegram_id;
      telegram_id = person.telegram_id;
      search_id = id;
      primary_search_name = w.formats.of_text s.name;
      matching_search_ids = ids;
      identity_key = e.identity_key;
      version_hash = e.version_hash;
      event_type = e.event_type;
      message_text = append "Newly observed rental (first seen by CHC)\n" (render w.formats push);
      not_before = notification_not_before w.zones person.profile now;
      created_at = now;
      cap_window_start = window.0;
      cap_window_end = window.1;
      daily_cap = s.daily_cap;
    }
