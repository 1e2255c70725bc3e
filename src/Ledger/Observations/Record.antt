-- ===== src/Ledger/Observations/Record.antt =====
-- What `record_observations` of src/chc_rental/event_store.py writes, and `query_baseline_states`.
use chc_rental.Base.{
  ℕ, String, Bool, true, false, not, Option, none, some, List, [], ◌∷◌, ◌++◌, map, if◌then◌else◌,
}
use chc_rental.Base.Table.{update_where, find_where, any_where}
use chc_rental.Base.Raise.{Result, ok, err, alert_store}
use chc_rental.Ledger.{
  Ledger, QueryScope, BaselineState, established, SourceRun, ListingIdentity, ListingVersion,
  Observation, EventType, ListingEventRow,
}
use chc_rental.Ledger.Runs.{has_query, has_run}
use chc_rental.Ledger.Observations.Seen.{
  ObservationInput, ObservationOutcome, is_baseline_type, is_new_type, is_established, is_succeeded,
  is_event_of, is_observation_of, has_identity, is_version_of, scope_seen, previous_listing,
  event_type_of,
}

unfoldable pub upsert_identity : String → ℕ → List ListingIdentity → List ListingIdentity
upsert_identity identity_key now rows =
    if any_where (has_identity identity_key) rows
    then update_where (has_identity identity_key) (λ d. record d { last_observed_at = now }) rows
    else rows
      ++ record { identity_key = identity_key; first_observed_at = now; last_observed_at = now }
        ∷ []

unfoldable pub upsert_version : ObservationInput → ℕ → List ListingVersion → List ListingVersion
upsert_version i now rows =
    if any_where (is_version_of i) rows
    then update_where (is_version_of i)
        (λ v. record v { canonical_json = i.canonical_json; last_observed_at = now }) rows
    else rows
      ++ record {
        identity_key = i.identity_key;
        version_hash = i.version_hash;
        canonical_json = i.canonical_json;
        source_posted_at = i.source_posted_at;
        first_observed_at = now;
        last_observed_at = now;
      }
        ∷ []

abbrev pub new_observation : String → ObservationInput → ℕ → Observation
new_observation run_id i now = record {
  run_id = run_id;
  identity_key = i.identity_key;
  version_hash = i.version_hash;
  source = i.source;
  source_listing_id = i.source_listing_id;
  source_url = i.source_url;
  observed_at = now;
}

-- `INSERT OR IGNORE`
unfoldable pub insert_observation :
    String → ObservationInput → ℕ → List Observation → List Observation
insert_observation run_id i now rows =
    if any_where (is_observation_of run_id i) rows
    then rows
    else rows ++ new_observation run_id i now ∷ []

abbrev pub new_event : SourceRun → ObservationInput → ℕ → EventType → ListingEventRow
new_event run i now t = record {
  run_id = run.run_id;
  query_id = run.query_id;
  identity_key = i.identity_key;
  version_hash = i.version_hash;
  event_type = t;
  created_at = now;
}

-- The four INSERTs for an item that the run has no event of yet.
unfoldable pub record_new : Bool → SourceRun → ℕ → ObservationInput → Ledger → Ledger
record_new is_baseline run now i l = record l {
  listing_identities = upsert_identity i.identity_key now l.listing_identities;
  listing_versions = upsert_version i now l.listing_versions;
  observations = insert_observation run.run_id i now l.observations;
  listing_events =
      l.listing_events ++ new_event run i now (event_type_of is_baseline run.query_id i l) ∷ [];
}

abbrev pub new_outcome : Bool → SourceRun → ObservationInput → Ledger → ObservationOutcome
new_outcome is_baseline run i l = record {
  identity_key = i.identity_key;
  version_hash = i.version_hash;
  is_baseline = is_baseline;
  new_to_scope = not (scope_seen run.query_id i l);
  new_identity = not (any_where (has_identity i.identity_key) l.listing_identities);
  new_version = not (any_where (is_version_of i) l.listing_versions);
  previous = previous_listing run.query_id i l;
  event_type = event_type_of is_baseline run.query_id i l;
}

abbrev pub persisted_outcome : ObservationInput → EventType → ObservationOutcome
persisted_outcome i t = record {
  identity_key = i.identity_key;
  version_hash = i.version_hash;
  is_baseline = is_baseline_type t;
  new_to_scope = is_new_type t;
  new_identity = false;
  new_version = false;
  previous = none;
  event_type = t;
}

unfoldable pub persisted_event : String → ObservationInput → Ledger → Option ListingEventRow
persisted_event run_id i l = find_where (is_event_of run_id i) l.listing_events

-- One turn of the loop over the items.
unfoldable pub record_item :
    Bool → SourceRun → ℕ → ObservationInput → Ledger → ObservationOutcome × Ledger
record_item is_baseline run now i l = elim (persisted_event run.run_id i l) [
  | some e ↦ (persisted_outcome i e.event_type, l)
  | none ↦ (new_outcome is_baseline run i l, record_new is_baseline run now i l)
]

unfoldable pub record_items :
    Bool → SourceRun → ℕ → List ObservationInput → Ledger → List ObservationOutcome × Ledger
record_items is_baseline run now [] l = ([], l)
record_items is_baseline run now (i ∷ items) l =
    let (outcome, l') = record_item is_baseline run now i l in
    let (outcomes, l'') = record_items is_baseline run now items l' in (outcome ∷ outcomes, l'')

abbrev pub establish_row : ℕ → QueryScope → QueryScope
establish_row now q = record q {
  baseline_state = established;
  baseline_established_at = some now;
  updated_at = now;
}

-- The UPDATE after the loop.
unfoldable pub establish : Bool → String → ℕ → Ledger → Ledger
establish is_baseline query_id now l =
    if is_baseline
    then record l {
      query_scopes = update_where (has_query query_id) (establish_row now) l.query_scopes;
    }
    else l

-- The method past its three tests.
unfoldable pub record_run :
    Bool → SourceRun → ℕ → List ObservationInput → Ledger → List ObservationOutcome × Ledger
record_run is_baseline run now items l =
    let (outcomes, l') = record_items is_baseline run now items l in
    (outcomes, establish is_baseline run.query_id now l')

abbrev pub is_baseline_run : QueryScope → Bool
is_baseline_run q = not (is_established q.baseline_state)

abbrev pub returned : List ObservationOutcome × Ledger → Result (List ObservationOutcome) × Ledger
returned (outcomes, l) = (ok outcomes, l)

unfoldable pub record_observations :
    String → List ObservationInput → ℕ → Ledger → Result (List ObservationOutcome) × Ledger
record_observations run_id items now l = elim (find_where (has_run run_id) l.source_runs) [
  | none ↦ (err alert_store, l)
  | some run ↦ elim (is_succeeded run.status) [
    | false ↦ (err alert_store, l)
    | true ↦ elim (find_where (has_query run.query_id) l.query_scopes) [
      | none ↦ (err alert_store, l)
      | some q ↦ returned (record_run (is_baseline_run q) run now items l)
    ]
  ]
]

unfoldable pub query_baseline_states : Ledger → List (String × BaselineState)
query_baseline_states l = map (λ q. (q.query_id, q.baseline_state)) l.query_scopes
