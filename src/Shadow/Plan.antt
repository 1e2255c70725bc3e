-- ===== src/Shadow/Plan.antt =====
-- `plan_shadow_notifications` of src/chc_rental/outbox.py.
use chc_rental.Base.{
  ℕ, ◌+◌, String, Bool, true, false, Option, none, some, List, [], ◌∷◌, str_eq, if◌then◌else◌,
}
use chc_rental.Base.Table.{find_where, count_where}
use chc_rental.Base.Raise.{Result, ok, err}
use chc_rental.Models.{Search, AllowlistEntry, get, is_allowlisted}
use chc_rental.Ledger.{Ledger}
use chc_rental.Ledger.Observations.{is_new_type}
use chc_rental.Ledger.Outbox.{
  EnqueueOutcome, queued, duplicate, cap_reached, OutboxEnqueueResult, enqueue_shadow,
}
use chc_rental.Planner.Incremental.{
  PlannedSourceQuery, zillow, Planned, given_id, plan_incremental_queries,
}
use chc_rental.Worker.{listed}
use chc_rental.Shadow.State.{
  already_seen, ListingEvent, ShadowOutboxReport, Shadowing, intent_for, matching_ids,
  wanted_searches, watches_by_person,
}

abbrev pub goes_by :
    EnqueueOutcome
    → Ledger
    → (Ledger → Result (Option EnqueueOutcome) × Ledger)
    → Result (Option EnqueueOutcome) × Ledger
goes_by cap_reached l rest = rest l
goes_by queued l rest = (ok (some queued), l)
goes_by duplicate l rest = (ok (some duplicate), l)

-- `if outcome.outcome != "cap_reached": break`
abbrev pub goes_on :
    Result OutboxEnqueueResult × Ledger
    → (Ledger → Result (Option EnqueueOutcome) × Ledger)
    → Result (Option EnqueueOutcome) × Ledger
goes_on (err x, l) rest = (err x, l)
goes_on (ok a, l) rest = goes_by a.outcome l rest

-- The loop over the searches of one person, up to the first with room under its cap. The outcome is
-- the last one, if there was any.
unfoldable pub enqueue_first :
    Shadowing
    → ListingEvent
    → ℕ
    → AllowlistEntry
    → List String
    → List Search
    → Option EnqueueOutcome
    → Ledger
    → Result (Option EnqueueOutcome) × Ledger
enqueue_first w e now person ids [] last l = (ok last, l)
enqueue_first w e now person ids (s ∷ searches) last l = elim (given_id s) [
  | none ↦ enqueue_first w e now person ids searches last l
  | some id ↦
      goes_on (enqueue_shadow (intent_for w e now person ids s id) l)
        (enqueue_first w e now person ids searches (some cap_reached))
]

abbrev pub count_outcome : Option EnqueueOutcome → ShadowOutboxReport → ShadowOutboxReport
count_outcome none r = record r { cap_suppressed = r.cap_suppressed + 1 }
count_outcome (some cap_reached) r = record r { cap_suppressed = r.cap_suppressed + 1 }
count_outcome (some duplicate) r = record r { duplicates = r.duplicates + 1 }
count_outcome (some queued) r = record r { queued = r.queued + 1 }

-- The report, and whether a person was found that the event matches.
abbrev pub Tallied : Type 0
Tallied = Bool × ShadowOutboxReport

abbrev pub counted : Tallied → Result (Option EnqueueOutcome) × Ledger → Result Tallied × Ledger
counted t (ok o, l) = (ok (true, count_outcome o t.1), l)
counted t (err x, l) = (err x, l)

-- What an event does for a person whose searches match.
unfoldable pub plan_matching :
    Shadowing
    → ListingEvent
    → ℕ
    → AllowlistEntry
    → List Search
    → Tallied
    → Ledger
    → Result Tallied × Ledger
plan_matching w e now person [] t l = (ok t, l)
plan_matching w e now person (s ∷ searches) t l =
    if listed e.identity_key (already_seen w now person.telegram_id)
    then (ok (true, record (t.1) { legacy_seen_suppressed = t.1.legacy_seen_suppressed + 1 }), l)
    else counted t
        (enqueue_first w e now person (matching_ids (s ∷ searches)) (s ∷ searches) none l)

unfoldable pub plan_person :
    Shadowing → ListingEvent → ℕ → ℕ × List String → Tallied → Ledger → Result Tallied × Ledger
plan_person w e now (id, ids) t l = elim (get w.allowlist id) [
  | none ↦ (ok t, l)
  | some person ↦
      if is_allowlisted w.allowlist id
      then plan_matching w e now person (wanted_searches e ids person) t l
      else (ok t, l)
]

-- The next call, unless the last one raised.
abbrev pub and_next {ℓ κ} :
    {A : Type ℓ} {B : Type κ}
    → Result A × Ledger
    → (A → Ledger → Result B × Ledger)
    → Result B × Ledger
and_next (ok a, l) f = f a l
and_next (err x, l) f = (err x, l)

unfoldable pub plan_persons :
    Shadowing
    → ListingEvent
    → ℕ
    → List (ℕ × List String)
    → Tallied
    → Ledger
    → Result Tallied × Ledger
plan_persons w e now [] t l = (ok t, l)
plan_persons w e now (g ∷ groups) t l =
    and_next (plan_person w e now g t l) (plan_persons w e now groups)

abbrev pub after_event : Tallied → ShadowOutboxReport
after_event (true, r) = r
after_event (false, r) = record r { unmatched = r.unmatched + 1 }

unfoldable pub plan_events :
    Shadowing
    → ℕ
    → List (ℕ × List String)
    → List ListingEvent
    → ShadowOutboxReport
    → Ledger
    → Result ShadowOutboxReport × Ledger
plan_events w now groups [] r l = (ok r, l)
plan_events w now groups (e ∷ events) r l = elim (is_new_type e.event_type) [
  | false ↦ plan_events w now groups events r l
  | true ↦
      and_next (plan_persons w e now groups (false, r) l)
        (λ t. plan_events w now groups events (after_event t))
]

abbrev pub nothing_planned : ShadowOutboxReport
nothing_planned = record {
  queued = 0;
  duplicates = 0;
  cap_suppressed = 0;
  legacy_seen_suppressed = 0;
  unmatched = 0;
}

-- By the scope that is planned for the query, if there is one.
abbrev pub plan_scope :
    Shadowing
    → List ListingEvent
    → ℕ
    → Option PlannedSourceQuery
    → Ledger
    → Result ShadowOutboxReport × Ledger
plan_scope w events now none l = (
  ok (record nothing_planned {
    unmatched = count_where (λ (e : ListingEvent). is_new_type e.event_type) events;
  }),
  l,
)
plan_scope w events now (some scope) l =
    plan_events w now (watches_by_person scope.watches []) events nothing_planned l

abbrev pub with_plan :
    Shadowing
    → List ListingEvent
    → String
    → ℕ
    → Result Planned
    → Ledger
    → Result ShadowOutboxReport × Ledger
with_plan w events query_id now (err x) l = (err x, l)
with_plan w events query_id now (ok planned) l =
    plan_scope w events now (find_where (λ p. str_eq p.query_id query_id) planned.0) l

unfoldable pub plan_shadow_notifications :
    Shadowing → List ListingEvent → String → ℕ → Ledger → Result ShadowOutboxReport × Ledger
plan_shadow_notifications w events query_id now l =
    with_plan w events query_id now (plan_incremental_queries w.hashing zillow w.allowlist) l
