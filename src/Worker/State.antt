-- ===== src/Worker/State.antt =====
-- What the worker of src/chc_rental/delivery_worker.py reads, keeps and reports.
use chc_rental.Base.{ℕ, String, Bool, Option, List}
use chc_rental.Models.{Profile, Allowlist, Settings}
use chc_rental.Base.Raise.{Result}
use chc_rental.Ledger.{Ledger}

-- What `sender.send` does: a receipt with its message id, `TelegramSendError`, another exception.
pub data SendOutcome : Type 0 where
  accepted : Option String → SendOutcome
  send_error : Bool → Bool → Option ℕ → String → SendOutcome
  unknown_error : String → SendOutcome

-- What `load_settings`, `load_allowlist` and `active_seen_keys`, its keys upgraded, return or raise
-- while the worker delivers one row. `allowlist_later` is the second reading of a delivery, and
-- `settings_later` that of `_reconcile_seen`.
pub record World : Type 0 where
  pub settings : Result Settings
  pub settings_later : Result Settings
  pub allowlist : Result Allowlist
  pub allowlist_later : Result Allowlist
  pub active_seen : ℕ → Result (List String)
  pub not_before : Profile → ℕ → ℕ
  pub send : ℕ → String → SendOutcome

pub record WorkerConfig : Type 0 where
  pub max_attempts : ℕ
  pub retry_base_seconds : ℕ

pub record Eligibility : Type 0 where
  pub eligible : Bool
  pub permanent : Bool
  pub reason : String

pub record DeliveryReport : Type 0 where
  pub promoted : ℕ
  pub sent : ℕ
  pub retry_wait : ℕ
  pub failed : ℕ
  pub uncertain : ℕ
  pub cancelled : ℕ
  pub blocked : List String
  pub sent_outbox_ids : List ℕ

-- The ledger, the report, the messages given to the sender and the keys that were marked as seen.
pub record Work : Type 0 where
  pub ledger : Ledger
  pub report : DeliveryReport
  pub sends : List (ℕ × String)
  pub seen_marks : List (ℕ × String)
