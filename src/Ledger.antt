-- ===== src/Ledger.antt =====
-- The alert ledger of src/chc_rental/event_store.py: the tables that the files of
-- src/chc_rental/migrations create, each as the list of its rows in order of insertion.
-- A time is the count of microseconds that the ISO text of `_iso` stands for; those texts compare
-- as the times do. Money is in millionths of a dollar. The column `canonical_json` holds the
-- listing that `_canonical_json` writes down, and not its text.
use chc_rental.Base.{ℕ, String, Bool, Option, List, []}
use chc_rental.Models.{Listing}
pub mod Outbox
pub mod Breaker
pub mod Runs
pub mod Observations
pub mod Costs

pub data BaselineState : Type 0 where
  pending established reset_pending : BaselineState

pub record QueryScope : Type 0 where
  pub query_id : String
  pub source : String
  pub query_json : String
  pub baseline_state : BaselineState
  pub baseline_established_at : Option ℕ
  pub last_due_at : Option ℕ
  pub last_success_at : Option ℕ
  pub next_due_at : Option ℕ
  pub consecutive_failures : ℕ
  pub active : Bool
  pub retired_at : Option ℕ
  pub lease_owner : Option String
  pub lease_until : Option ℕ
  pub created_at : ℕ
  pub updated_at : ℕ

pub data RunStatus : Type 0 where
  reserved running succeeded failed timed_out cancelled : RunStatus

pub data ExecutionMode : Type 0 where
  live fixture legacy_unknown : ExecutionMode

pub record SourceRun : Type 0 where
  pub run_id : String
  pub query_id : String
  pub source : String
  pub execution_mode : ExecutionMode
  pub apify_run_id : Option String
  pub default_dataset_id : Option String
  pub status : RunStatus
  pub input_fingerprint : String
  pub started_at : ℕ
  pub finished_at : Option ℕ
  pub result_count : Option ℕ
  pub truncated : Bool
  pub error_class : Option String
  pub error_message : Option String
  pub charge_usd : Option ℕ
  pub charge_known : Bool
  pub processed_at : Option ℕ
  pub created_at : ℕ
  pub updated_at : ℕ

pub record ListingIdentity : Type 0 where
  pub identity_key : String
  pub first_observed_at : ℕ
  pub last_observed_at : ℕ

pub record ListingVersion : Type 0 where
  pub identity_key : String
  pub version_hash : String
  pub canonical_json : Listing
  pub source_posted_at : Option ℕ
  pub first_observed_at : ℕ
  pub last_observed_at : ℕ

pub record Observation : Type 0 where
  pub run_id : String
  pub identity_key : String
  pub version_hash : String
  pub source : String
  pub source_listing_id : Option String
  pub source_url : String
  pub observed_at : ℕ

pub data EventType : Type 0 where
  baseline new price_change material_change duplicate repost_candidate : EventType

pub record ListingEventRow : Type 0 where
  pub run_id : String
  pub query_id : String
  pub identity_key : String
  pub version_hash : String
  pub event_type : EventType
  pub created_at : ℕ

pub data OutboxStatus : Type 0 where
  shadow pending sending sent failed retry_wait uncertain cancelled : OutboxStatus

-- `OutboxRecord` with the columns that only the ledger reads.
pub record OutboxRow : Type 0 where
  pub outbox_id : ℕ
  pub idempotency_key : String
  pub telegram_id : ℕ
  pub search_id : String
  pub primary_search_name : String
  pub matching_search_ids : List String
  pub identity_key : String
  pub version_hash : String
  pub event_type : EventType
  pub status : OutboxStatus
  pub message_text : String
  pub not_before : ℕ
  pub attempts : ℕ
  pub last_error : Option String
  pub last_error_class : Option String
  pub created_at : ℕ
  pub claimed_at : Option ℕ
  pub sent_at : Option ℕ
  pub operator_alerted_at : Option ℕ
  pub updated_at : Option ℕ

pub record DeliveryReceipt : Type 0 where
  pub outbox_id : ℕ
  pub telegram_message_id : Option String
  pub accepted_at : ℕ

-- The rows of `operator_audit`, by action and details.
pub data AuditAction : Type 0 where
  retry_failed_outbox promote_canary_outbox : ℕ → AuditAction
  cancel_recipient_outbox : List ℕ → ℕ → String → AuditAction
  reset_baseline : String → String → AuditAction

pub record OperatorAudit : Type 0 where
  pub action : AuditAction
  pub created_at : ℕ

pub data BreakerState : Type 0 where
  closed opened half_open : BreakerState

pub data PendingAlert : Type 0 where
  failure_started opened escalated recovered : PendingAlert

-- `SourceBreakerRecord`; the state "open" is `opened` here.
pub record SourceBreaker : Type 0 where
  pub source : String
  pub state : BreakerState
  pub consecutive_failures : ℕ
  pub last_error_class : Option String
  pub last_error_message : Option String
  pub opened_at : Option ℕ
  pub retry_at : Option ℕ
  pub last_success_at : Option ℕ
  pub pending_alert : Option PendingAlert
  pub failure_alerted_at : Option ℕ
  pub updated_at : ℕ

pub record Ledger : Type 0 where
  pub query_scopes : List QueryScope
  pub source_runs : List SourceRun
  pub listing_identities : List ListingIdentity
  pub listing_versions : List ListingVersion
  pub observations : List Observation
  pub listing_events : List ListingEventRow
  pub outbox : List OutboxRow
  -- what AUTOINCREMENT gives to the next row of `outbox`
  pub next_outbox_id : ℕ
  pub delivery_receipts : List DeliveryReceipt
  pub operator_audit : List OperatorAudit
  pub source_breakers : List SourceBreaker

abbrev pub empty : Ledger
empty = record {
  query_scopes = [];
  source_runs = [];
  listing_identities = [];
  listing_versions = [];
  observations = [];
  listing_events = [];
  outbox = [];
  next_outbox_id = 1;
  delivery_receipts = [];
  operator_audit = [];
  source_breakers = [];
}
