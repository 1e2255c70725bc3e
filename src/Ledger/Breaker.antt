-- ===== src/Ledger/Breaker.antt =====
-- The source breakers of src/chc_rental/event_store.py: `source_start_allowed`,
-- `release_source_probe`, `record_source_failure`, `record_source_success`, `pending_source_alerts`
-- and `acknowledge_source_alert`. What the two `record` methods compute from the row of a source is
-- a function of its own, `failed_breaker` and `healthy_breaker`.
pub mod States
pub mod Outage
pub mod Circuit
pub mod Tests
use chc_rental.Base.{
  ℕ, ◌+◌, ◌*◌, String, Bool, true, false, ◌&&◌, ◌||◌, not, Option, none, some, List, [], ◌∷◌, ◌++◌,
  ltb, leb, ◌==◌, is_none, str_eq, if◌then◌else◌,
}
use chc_rental.Base.Table.{update_where, rows_where, find_where, any_where}
use chc_rental.Base.Str.{truncate, opt_eq}
use chc_rental.Ledger.{
  Ledger, SourceBreaker, BreakerState, closed, opened, half_open, PendingAlert, failure_started,
  escalated, recovered,
}

abbrev pub is_closed : BreakerState → Bool
is_closed closed = true
is_closed _ = false

abbrev pub has_source : String → SourceBreaker → Bool
has_source source b = str_eq b.source source

unfoldable pub breaker_of : String → Ledger → Option SourceBreaker
breaker_of source l = find_where (has_source source) l.source_breakers

-- `INSERT … ON CONFLICT(source) DO UPDATE`
unfoldable pub set_breaker : SourceBreaker → Ledger → Ledger
set_breaker b l =
    if any_where (has_source b.source) l.source_breakers
    then record l {
      source_breakers = update_where (has_source b.source) (λ _. b) l.source_breakers;
    }
    else record l { source_breakers = l.source_breakers ++ b ∷ [] }

-- A number of minutes as a time span.
abbrev pub minutes : ℕ → ℕ
minutes n = n * 60_000_000

-- May a run be started, by the row of its source, and does the call claim the half-open probe.
unfoldable pub start_allowed : Option SourceBreaker → ℕ → Bool
start_allowed none now = true
start_allowed (some b) now = elim b.state [
  | closed ↦ true
  | half_open ↦ false
  | opened ↦ elim b.retry_at [ none ↦ false | some t ↦ leb t now ]
]

abbrev pub is_open : Option SourceBreaker → Bool
is_open none = false
is_open (some b) = elim b.state [ closed ↦ false | half_open ↦ false | opened ↦ true ]

abbrev pub probe_row : ℕ → SourceBreaker → SourceBreaker
probe_row now b = record b { state = half_open; updated_at = now }

unfoldable pub source_start_allowed : String → ℕ → Ledger → Bool × Ledger
source_start_allowed source now l =
    let row = breaker_of source l in
    let allowed = start_allowed row now in
    (
      allowed,
      if allowed && is_open row
          then record l {
            source_breakers = update_where (has_source source) (probe_row now) l.source_breakers;
          }
          else l,
    )

abbrev pub is_probing : String → SourceBreaker → Bool
is_probing source b =
    has_source source b && elim b.state [ closed ↦ false | opened ↦ false | half_open ↦ true ]

unfoldable pub release_source_probe : String → ℕ → Ledger → Ledger
release_source_probe source now l = record l {
  source_breakers =
      update_where (is_probing source) (λ b. record b { state = opened; updated_at = now })
        l.source_breakers;
}

-- The row that `record_source_failure` reads where there is none.
abbrev pub fresh_breaker : String → SourceBreaker
fresh_breaker source = record {
  source = source;
  state = closed;
  consecutive_failures = 0;
  last_error_class = none;
  last_error_message = none;
  opened_at = none;
  retry_at = none;
  last_success_at = none;
  pending_alert = none;
  failure_alerted_at = none;
  updated_at = 0;
}

-- `(error_message or "")[:500] or None`
abbrev pub trimmed_message : Option String → Option String
trimmed_message none = none
trimmed_message (some m) = let t = truncate 500 m in if str_eq t "" then none else some t

-- The arguments of `record_source_failure` but the source.
pub record Failure : Type 0 where
  pub at : ℕ
  pub error_class : String
  pub error_message : Option String
  pub threshold : ℕ
  pub cooldown_minutes : ℕ
  pub immediate_open : Bool

-- `should_open`
unfoldable pub should_open : Failure → SourceBreaker → Bool
should_open f b =
    f.immediate_open || leb f.threshold (b.consecutive_failures + 1) || not (is_closed b.state)

-- `previous_class is not None and previous_class != error_class`
abbrev pub new_class : Option String → String → Bool
new_class none error_class = false
new_class (some c) error_class = not (str_eq c error_class)

-- The alert that a failure makes pending, where it makes one.
unfoldable pub failure_alert : Failure → SourceBreaker → Option PendingAlert
failure_alert f b =
    if b.consecutive_failures == 0 && not (should_open f b)
    then some failure_started
    else if should_open f b && is_closed b.state
    then some PendingAlert.opened
    else if should_open f b && not (is_closed b.state) && new_class b.last_error_class f.error_class
    then some escalated
    else none

-- The row after a failure.
unfoldable pub failed_breaker : Failure → SourceBreaker → SourceBreaker
failed_breaker f b =
    let opens = should_open f b in
    let alert = failure_alert f b in
    record b {
      state = if opens then opened else closed;
      consecutive_failures = b.consecutive_failures + 1;
      last_error_class = some (truncate 100 f.error_class);
      last_error_message = trimmed_message f.error_message;
      opened_at = if opens && is_closed b.state then some f.at else b.opened_at;
      retry_at = if opens then some (f.at + minutes f.cooldown_minutes) else none;
      pending_alert = elim alert [ none ↦ b.pending_alert | some a ↦ some a ];
      failure_alerted_at = elim alert [ none ↦ b.failure_alerted_at | some a ↦ none ];
      updated_at = f.at;
    }

abbrev pub or_fresh : String → Option SourceBreaker → SourceBreaker
or_fresh source none = fresh_breaker source
or_fresh source (some b) = b

unfoldable pub record_source_failure : String → Failure → Ledger → Option SourceBreaker × Ledger
record_source_failure source f l =
    let l' = set_breaker (failed_breaker f (or_fresh source (breaker_of source l))) l in
    (breaker_of source l', l')

-- The row after a success. A new row keeps `failure_alerted_at` at NULL, an old one what it had.
unfoldable pub healthy_breaker : ℕ → SourceBreaker → SourceBreaker
healthy_breaker now b = record b {
  state = closed;
  consecutive_failures = 0;
  last_error_class = none;
  last_error_message = none;
  opened_at = none;
  retry_at = none;
  last_success_at = some now;
  pending_alert =
      if ltb 0 b.consecutive_failures && not (is_none b.failure_alerted_at)
      then some recovered
      else none;
  updated_at = now;
}

unfoldable pub record_source_success : String → ℕ → Ledger → Option SourceBreaker × Ledger
record_source_success source now l =
    let l' = set_breaker (healthy_breaker now (or_fresh source (breaker_of source l))) l in
    (breaker_of source l', l')

unfoldable pub pending_source_alerts : Ledger → List SourceBreaker
pending_source_alerts l = rows_where (λ b. not (is_none b.pending_alert)) l.source_breakers

-- When the operator was told of a failure, by the alert that was acknowledged.
abbrev pub alerted_at : PendingAlert → ℕ → Option ℕ
alerted_at recovered now = none
alerted_at _ now = some now

unfoldable pub acknowledged : ℕ → SourceBreaker → SourceBreaker
acknowledged now b = elim b.pending_alert [
  | none ↦ b
  | some a ↦ record b {
    pending_alert = none;
    failure_alerted_at = alerted_at a now;
    updated_at = now;
  }
]

unfoldable pub acknowledge_source_alert : String → ℕ → Ledger → Ledger
acknowledge_source_alert source now l = record l {
  source_breakers = update_where (has_source source) (acknowledged now) l.source_breakers;
}
