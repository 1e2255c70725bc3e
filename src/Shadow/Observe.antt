-- ===== src/Shadow/Observe.antt =====
-- `observe_collection` of src/chc_rental/events.py with `validate_records` of
-- src/chc_rental/pipeline.py, and `process_incremental_report` of src/chc_rental/outbox.py. The file
-- of rejected records is not modelled, only their number.
use chc_rental.Base.{
  ℕ, ◌+◌, String, Bool, true, false, ◌&&◌, not, Option, none, some, List, [], ◌∷◌, ◌++◌, length,
  str_eq, if◌then◌else◌,
}
use chc_rental.Base.Table.{find_where, any_where}
use chc_rental.Base.Raise.{Result, ok, err, value}
use chc_rental.Models.{Listing}
use chc_rental.Ledger.{Ledger}
use chc_rental.Ledger.Runs.{has_query, mark_source_run_processed}
use chc_rental.Ledger.Observations.{
  ObservationInput, ObservationOutcome, is_established, record_observations,
}
use chc_rental.Collector.State.{Raw, CollectionStatus, succeeded, IncrementalCollection}
use chc_rental.Shadow.State.{Shadowing, ListingEvent, ObservationReport, ShadowOutboxReport}
use chc_rental.Shadow.Plan.{nothing_planned, and_next, plan_shadow_notifications}

-- `validate_records`
unfoldable pub validate_records : Shadowing → List Raw → List Listing × ℕ
validate_records w [] = ([], 0)
validate_records w (raw ∷ records) =
    let (listings, rejected) = validate_records w records in
    elim (w.validate raw) [ none ↦ (listings, rejected + 1) | some l ↦ (l ∷ listings, rejected) ]

abbrev pub input_of : Shadowing → Listing → ObservationInput
input_of w l = record {
  identity_key = w.dedup_key l;
  version_hash = w.material_version_hash l;
  canonical_json = l;
  source = l.source;
  source_listing_id = l.source_listing_id;
  source_url = l.url;
  source_posted_at = l.first_seen_at;
}

abbrev pub is_same : String → String → ObservationInput → Bool
is_same key version i = str_eq i.identity_key key && str_eq i.version_hash version

-- `unique.setdefault((identity, version), listing)` and `prepared`
unfoldable pub prepared_from :
    Shadowing → List Listing → List ObservationInput → List ObservationInput
prepared_from w [] items = items
prepared_from w (l ∷ listings) items =
    let i = input_of w l in
    prepared_from w listings
      (if any_where (is_same i.identity_key i.version_hash) items then items else items ++ i ∷ [])

-- `report.events`: each outcome is of an item, whose listing the event has.
unfoldable pub events_of : List ObservationInput → List ObservationOutcome → List ListingEvent
events_of items [] = []
events_of items (o ∷ outcomes) =
    let rest = events_of items outcomes in
    elim (find_where (is_same o.identity_key o.version_hash) items) [
      | none ↦ rest
      | some i ↦
          record {
            event_type = o.event_type;
            identity_key = o.identity_key;
            version_hash = o.version_hash;
            listing = i.canonical_json;
          }
          ∷ rest
    ]

abbrev pub was_pending : String → Ledger → Bool
was_pending query_id l = elim (find_where (has_query query_id) l.query_scopes) [
  | none ↦ true
  | some q ↦ not (is_established q.baseline_state)
]

abbrev pub is_collected : CollectionStatus → Bool
is_collected succeeded = true
is_collected _ = false

-- The run of a collection that succeeded.
abbrev pub observable_run : IncrementalCollection → Option String
observable_run c = if is_collected c.status then c.run_id else none

unfoldable pub observe_run :
    Shadowing → IncrementalCollection → String → ℕ → Ledger → Result ObservationReport × Ledger
observe_run w c run_id now l =
    let (listings, rejected) = validate_records w c.records in
    let items = prepared_from w listings [] in
    and_next (record_observations run_id items now l) (λ outcomes l'. (
      ok (record {
        query_id = c.query_id;
        run_id = run_id;
        baseline_established = was_pending c.query_id l;
        validated = length items;
        rejected = rejected;
        events = events_of items outcomes;
      }),
      l',
    ))

unfoldable pub observe_collection :
    Shadowing → IncrementalCollection → ℕ → Ledger → Result ObservationReport × Ledger
observe_collection w c now l = elim (observable_run c) [
  | none ↦ (err value, l)
  | some run_id ↦ observe_run w c run_id now l
]

abbrev pub added : ShadowOutboxReport → ShadowOutboxReport → ShadowOutboxReport
added r s = record {
  queued = r.queued + s.queued;
  duplicates = r.duplicates + s.duplicates;
  cap_suppressed = r.cap_suppressed + s.cap_suppressed;
  legacy_seen_suppressed = r.legacy_seen_suppressed + s.legacy_seen_suppressed;
  unmatched = r.unmatched + s.unmatched;
}

pub record IncrementalProcessingReport : Type 0 where
  pub observations : List ObservationReport
  pub outbox : ShadowOutboxReport

abbrev pub Processed : Type 0
Processed = Result IncrementalProcessingReport × Ledger

-- One collection that succeeded.
unfoldable pub process_run :
    Shadowing
    → IncrementalCollection
    → String
    → ℕ
    → IncrementalProcessingReport
    → Ledger
    → Processed
process_run w c run_id now p l = and_next (observe_run w c run_id now l) (λ o l1.
    and_next (plan_shadow_notifications w o.events o.query_id now l1) (λ s l2.
      and_next (mark_source_run_processed run_id now l2) (λ u l3.
        (ok (record { observations = p.observations ++ o ∷ []; outbox = added p.outbox s }), l3))))

unfoldable pub process_from :
    Shadowing → ℕ → List IncrementalCollection → IncrementalProcessingReport → Ledger → Processed
process_from w now [] p l = (ok p, l)
process_from w now (c ∷ collections) p l = elim (observable_run c) [
  | none ↦ process_from w now collections p l
  | some run_id ↦ and_next (process_run w c run_id now p l) (process_from w now collections)
]

unfoldable pub process_incremental_report :
    Shadowing → List IncrementalCollection → ℕ → Ledger → Processed
process_incremental_report w collections now l =
    process_from w now collections (record { observations = []; outbox = nothing_planned }) l
