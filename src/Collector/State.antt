-- ===== src/Collector/State.antt =====
-- What the collector of src/chc_rental/incremental.py reads, keeps and reports, and its calls as
-- functions from a state to a result and the state after it.
use chc_rental.Base.{ℕ, ◌*◌, String, Bool, true, false, Option, List}
use chc_rental.Base.Raise.{Error, Result, ok, err}
use chc_rental.Models.{Allowlist, Settings}
use chc_rental.Ledger.{Ledger}
use chc_rental.Quota.{Quota}
use chc_rental.Planner.{SourceQuery}
use chc_rental.Planner.Incremental.{Hashing, PlanWarning}

-- A record as the provider gives it, as its JSON text.
abbrev pub Raw : Type 0
Raw = String

-- What a call of the provider comes back with: `SourceAuthError`, `SourceRateLimitError` with its
-- `retry_after`, or another `SourceError` with the name of its class.
pub data Remote (A : Type 0) : Type 0 where
  answer : A → Remote A
  auth_error : String → Remote A
  rate_limit_error : Option ℕ → String → Remote A
  source_error : String → String → Remote A

-- The terminal statuses of an Apify run, and any other text.
pub data ApifyStatus : Type 0 where
  succeeded failed timed_out aborted : ApifyStatus
  not_terminal : String → ApifyStatus

pub record ApifyRunState : Type 0 where
  pub run_id : String
  pub status : ApifyStatus
  pub default_dataset_id : Option String
  pub usage_total_usd : Option ℕ
  pub status_message : Option String

pub data CollectionStatus : Type 0 where
  running succeeded failed timed_out cancelled start_uncertain dataset_failed : CollectionStatus
  poll_failed auth_failed rate_limited budget_deferred : CollectionStatus

pub record IncrementalCollection : Type 0 where
  pub query_id : String
  pub run_id : Option String
  pub status : CollectionStatus
  pub records : List Raw
  pub raw_result_count : ℕ
  pub truncated : Bool
  pub cost_usd : Option ℕ
  pub error : Option String

pub data CycleWarning : Type 0 where
  planning : PlanWarning → CycleWarning
  alerts_disabled zillow_disabled outside_active_window budget_reached breaker_open : CycleWarning

pub record IncrementalCycleReport : Type 0 where
  pub planned_scopes : ℕ
  pub started : ℕ
  pub resumed : ℕ
  pub recovered : ℕ
  pub warnings : List CycleWarning
  pub collections : List IncrementalCollection

-- The adapter and the client that a collector is made with; a fetch of a provider gives what the
-- provider says at that time, the start of an actor and a new run id by how many there were before.
pub record Client : Type 0 where
  pub actor_input : SourceQuery → Remote String
  pub results_limit : ℕ
  pub normalize_dataset : List Raw → Remote (List Raw)
  pub start_actor : ℕ → String → Remote ApifyRunState
  pub get_run : String → Remote ApifyRunState
  pub get_dataset : String → Remote (List Raw)
  pub new_run_id : ℕ → String
  pub fingerprint : String → String

-- The collector with what it reads from files and clocks: is each migration done, the allowlist, the
-- clock of a zone and the bounds of the month of a time.
pub record Collector : Type 0 where
  pub settings : Settings
  pub worker_id : String
  pub allow_disabled : Bool
  pub meter_requests : Bool
  pub config_ready : Bool
  pub ledger_ready : Bool
  pub allowlist : Allowlist
  pub hashing : Hashing
  pub local_clock : String → ℕ → ℕ × ℕ
  pub month_of : ℕ → ℕ × ℕ

-- The ledger, the request ledger of the scrape day, and how many runs were asked of the provider.
pub record Cycle : Type 0 where
  pub ledger : Ledger
  pub quota : Quota
  pub starts : ℕ

abbrev pub M : Type 0 → Type 0
M A = Cycle → Result A × Cycle

abbrev pub pure : {A : Type 0} → A → M A
pure a s = (ok a, s)

abbrev pub raise : {A : Type 0} → Error → M A
raise e s = (err e, s)

-- The rest of a call after a part of it: an exception ends the call, and keeps what was written.
abbrev pub after : {A B : Type 0} → (A → M B) → Result A × Cycle → Result B × Cycle
after f (ok a, s) = f a s
after f (err e, s) = (err e, s)

infixl 5 ◌>>=◌ ◌>>◌
unfoldable pub ◌>>=◌ : {A B : Type 0} → M A → (A → M B) → M B
◌>>=◌ m f s = after f (m s)

abbrev pub ◌>>◌ : {A B : Type 0} → M A → M B → M B
m >> k = m >>= λ _. k

abbrev pub of_ledger : {A : Type 0} → (Ledger → A) → M A
of_ledger f s = (ok (f s.ledger), s)

-- A method of the event store that cannot raise, and one that can.
abbrev pub update_ledger : (Ledger → Ledger) → M (Unit {0})
update_ledger f s = (ok tt, record s { ledger = f s.ledger })

abbrev pub read_ledger : {A : Type 0} → (Ledger → A × Ledger) → M A
read_ledger f s = let (a, l) = f s.ledger in (ok a, record s { ledger = l })

abbrev pub call_ledger : {A : Type 0} → (Ledger → Result A × Ledger) → M A
call_ledger f s = let (r, l) = f s.ledger in (r, record s { ledger = l })

abbrev pub require : Bool → Error → M (Unit {0})
require true e = pure tt
require false e = raise e

abbrev pub minutes : ℕ → ℕ
minutes n = n * 60_000_000
