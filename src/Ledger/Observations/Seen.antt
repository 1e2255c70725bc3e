-- ===== src/Ledger/Observations/Seen.antt =====
-- What `record_observations` of src/chc_rental/event_store.py reads about an item, and the type of
-- event that follows.
use chc_rental.Base.{
  ℕ, String, Bool, true, false, ◌&&◌, ◌||◌, not, Option, none, some, List, [], ◌∷◌, ltb, leb, ◌==◌,
  str_eq, if◌then◌else◌,
}
use chc_rental.Base.Table.{rows_where, find_where, any_where}
use chc_rental.Models.{Listing}
use chc_rental.Ledger.{
  Ledger, BaselineState, established, SourceRun, RunStatus, succeeded, ListingIdentity,
  ListingVersion, Observation, EventType, baseline, new, price_change, material_change, duplicate,
  ListingEventRow,
}
use chc_rental.Ledger.Runs.{has_run}

pub record ObservationInput : Type 0 where
  pub identity_key : String
  pub version_hash : String
  pub canonical_json : Listing
  pub source : String
  pub source_listing_id : Option String
  pub source_url : String
  pub source_posted_at : Option ℕ

pub record ObservationOutcome : Type 0 where
  pub identity_key : String
  pub version_hash : String
  pub is_baseline : Bool
  pub new_to_scope : Bool
  pub new_identity : Bool
  pub new_version : Bool
  pub previous : Option Listing
  pub event_type : EventType

abbrev pub is_baseline_type : EventType → Bool
is_baseline_type baseline = true
is_baseline_type _ = false

abbrev pub is_new_type : EventType → Bool
is_new_type new = true
is_new_type _ = false

abbrev pub is_established : BaselineState → Bool
is_established established = true
is_established _ = false

abbrev pub is_succeeded : RunStatus → Bool
is_succeeded succeeded = true
is_succeeded _ = false

-- `run_id=? AND identity_key=? AND version_hash=?` on listing_events and on observations
abbrev pub is_event_of : String → ObservationInput → ListingEventRow → Bool
is_event_of run_id i e =
    str_eq e.run_id run_id
    && (str_eq e.identity_key i.identity_key && str_eq e.version_hash i.version_hash)

abbrev pub is_observation_of : String → ObservationInput → Observation → Bool
is_observation_of run_id i o =
    str_eq o.run_id run_id
    && (str_eq o.identity_key i.identity_key && str_eq o.version_hash i.version_hash)

-- `JOIN source_runs r ON r.run_id=o.run_id WHERE r.query_id=?`
unfoldable pub in_scope : String → List SourceRun → Observation → Bool
in_scope query_id runs o =
    any_where (λ r. str_eq r.run_id o.run_id && str_eq r.query_id query_id) runs

-- `… AND o.identity_key=?`
abbrev pub seen_in_scope : String → String → List SourceRun → Observation → Bool
seen_in_scope query_id identity_key runs o =
    in_scope query_id runs o && str_eq o.identity_key identity_key

abbrev pub has_identity : String → ListingIdentity → Bool
has_identity identity_key d = str_eq d.identity_key identity_key

abbrev pub is_version_of : ObservationInput → ListingVersion → Bool
is_version_of i v = str_eq v.identity_key i.identity_key && str_eq v.version_hash i.version_hash

unfoldable pub scope_seen : String → ObservationInput → Ledger → Bool
scope_seen query_id i l =
    any_where (seen_in_scope query_id i.identity_key l.source_runs) l.observations

unfoldable pub scope_version_seen : String → ObservationInput → Ledger → Bool
scope_version_seen query_id i l =
    any_where
      (λ o.
        seen_in_scope query_id i.identity_key l.source_runs o
        && str_eq o.version_hash i.version_hash)
      l.observations

abbrev pub started_at : List SourceRun → Observation → ℕ
started_at runs o = elim (find_where (has_run o.run_id) runs) [ none ↦ 0 | some r ↦ r.started_at ]

-- `ORDER BY o.observed_at DESC, r.started_at DESC`; rows that are equal there stand in any order for
-- SQLite, and in order of insertion here.
abbrev pub later : List SourceRun → Observation → Observation → Bool
later runs o p =
    ltb p.observed_at o.observed_at
    || o.observed_at == p.observed_at && leb (started_at runs p) (started_at runs o)

abbrev pub latest : List SourceRun → Observation → Option Observation → Observation
latest runs o none = o
latest runs o (some p) = if later runs o p then o else p

unfoldable pub latest_of : List SourceRun → List Observation → Option Observation
latest_of runs [] = none
latest_of runs (o ∷ os) = let rest = latest_of runs os in some (latest runs o rest)

-- `previous`. The foreign key of observations gives every row its version.
unfoldable pub previous_listing : String → ObservationInput → Ledger → Option Listing
previous_listing query_id i l =
    elim (latest_of l.source_runs
      (rows_where (seen_in_scope query_id i.identity_key l.source_runs) l.observations)) [
        | none ↦ none
        | some o ↦
            elim (find_where
              (λ v. str_eq v.identity_key o.identity_key && str_eq v.version_hash o.version_hash)
              l.listing_versions) [ none ↦ none | some v ↦ some v.canonical_json ]
      ]

-- `previous_price != current_price`
abbrev pub price_differs : Option Listing → Listing → Bool
price_differs none current = true
price_differs (some p) current = not (p.price == current.price)

unfoldable pub event_type_of : Bool → String → ObservationInput → Ledger → EventType
event_type_of is_baseline query_id i l =
    if is_baseline
    then baseline
    else if not (scope_seen query_id i l)
    then new
    else if not (scope_version_seen query_id i l)
    then if price_differs (previous_listing query_id i l) i.canonical_json
      then price_change
      else material_change
    else duplicate
