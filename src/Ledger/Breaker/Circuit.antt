-- ===== src/Ledger/Breaker/Circuit.antt =====
-- The breaker of a source as a circuit: a description of its own, without the columns for alerts,
-- error texts and times of the past, and the table of breakers as its implementation.
use chc_rental.Base.{
  ℕ, ◌+◌, String, ◌≡◌, ◌≢◌, refl, ap, ◌∙◌, Bool, true, false, ◌||◌, Option, none, some, List, [],
  ◌∷◌, arith, Bool-cases, inl, inr, leb, if◌then◌else◌,
}
use chc_rental.Ledger.{Ledger, SourceBreaker, BreakerState, closed, opened, half_open}
use chc_rental.Ledger.Breaker.{
  breaker_of, start_allowed, minutes, source_start_allowed, Failure, should_open, failed_breaker,
  healthy_breaker, acknowledged, fresh_breaker,
}
use chc_rental.Ledger.Breaker.States.{
  Event, start, release, success, acknowledge, failure, apply, react, apply-react,
}
use chc_rental.Ledger.Breaker.Outage.{applies}

-- Closed, open, or half open with a probe on its way; the failures in a row, and the time from which
-- a probe may go out.
pub data Circuit : Type 0 where
  shut : ℕ → Circuit
  tripped probing : ℕ → Option ℕ → Circuit

-- May a run be started: always while shut, from the time of retry on while tripped, never while a
-- probe is on its way.
abbrev pub lets_start : Circuit → ℕ → Bool
lets_start (shut n) now = true
lets_start (tripped n none) now = false
lets_start (tripped n (some t)) now = leb t now
lets_start (probing n t) now = false

-- A failure of a circuit that is shut trips it at once, or by the number of the failure.
abbrev pub trips : Failure → ℕ → Bool
trips f n = f.immediate_open || leb f.threshold (n + 1)

abbrev pub tripped_by : Failure → ℕ → Circuit
tripped_by f n = tripped (n + 1) (some (f.at + minutes f.cooldown_minutes))

-- The circuit after a call.
unfoldable pub after : Event → Circuit → Circuit
after (start now) (tripped n (some t)) =
    if leb t now then probing n (some t) else tripped n (some t)
after (start now) c = c
after (release now) (probing n t) = tripped n t
after (release now) c = c
after (success now) c = shut 0
after (acknowledge now) c = c
after (failure f) (shut n) = if trips f n then tripped_by f n else shut (n + 1)
after (failure f) (tripped n t) = tripped_by f n
after (failure f) (probing n t) = tripped_by f n

unfoldable pub after_all : List Event → Circuit → Circuit
after_all [] c = c
after_all (e ∷ es) c = after_all es (after e c)

-- The circuit that the row of a source stands for. A source without a row is shut.
abbrev circuit_at : BreakerState → ℕ → Option ℕ → Circuit
circuit_at closed n t = shut n
circuit_at opened n t = tripped n t
circuit_at half_open n t = probing n t

abbrev pub circuit_of : Option SourceBreaker → Circuit
circuit_of none = shut 0
circuit_of (some b) = circuit_at b.state b.consecutive_failures b.retry_at

start-circuit :
    (s : String) (now : ℕ) (b : SourceBreaker) (st : BreakerState) (t : Option ℕ)
    → circuit_of (react s (start now) (some (record b { state = st; retry_at = t })))
      ≡ after (start now) (circuit_of (some (record b { state = st; retry_at = t })))
unfolding react start_allowed after
start-circuit s now b closed t = refl
start-circuit s now b half_open t = refl
start-circuit s now b opened none = refl
start-circuit s now b opened (some t) = elim (Bool-cases (leb t now)) [
  | inl due ↦ rw due refl
  | inr early ↦ rw early refl
]

release-circuit :
    (s : String) (now : ℕ) (b : SourceBreaker) (st : BreakerState)
    → circuit_of (react s (release now) (some (record b { state = st })))
      ≡ after (release now) (circuit_of (some (record b { state = st })))
unfolding react after
release-circuit s now b closed = refl
release-circuit s now b opened = refl
release-circuit s now b half_open = refl

acknowledge-circuit :
    (now : ℕ) (b : SourceBreaker) → circuit_of (some (acknowledged now b)) ≡ circuit_of (some b)
unfolding acknowledged
acknowledge-circuit now b = ground arith

failed-circuit :
    (f : Failure) (b : SourceBreaker) (st : BreakerState)
    → circuit_of (some (failed_breaker f (record b { state = st })))
      ≡ after (failure f) (circuit_of (some (record b { state = st })))
unfolding failed_breaker should_open after
failed-circuit f b closed = ground arith
failed-circuit f b opened = ground arith
failed-circuit f b half_open = ground arith

react-circuit :
    (s : String) (e : Event) (o : Option SourceBreaker)
    → circuit_of (react s e o) ≡ after e (circuit_of o)
unfolding react
react-circuit s (start now) none = unfold start_allowed after in refl
react-circuit s (start now) (some b) = start-circuit s now b b.state b.retry_at
react-circuit s (release now) none = unfold after in refl
react-circuit s (release now) (some b) = release-circuit s now b b.state
react-circuit s (success now) o = unfold healthy_breaker after in refl
react-circuit s (acknowledge now) none = unfold after in refl
react-circuit s (acknowledge now) (some b) = unfold after in acknowledge-circuit now b
react-circuit s (failure f) none = failed-circuit f (fresh_breaker s) closed
react-circuit s (failure f) (some b) = failed-circuit f b b.state

allowed-circuit :
    (b : SourceBreaker) (st : BreakerState) (t : Option ℕ) (now : ℕ)
    → start_allowed (some (record b { state = st; retry_at = t })) now
      ≡ lets_start (circuit_of (some (record b { state = st; retry_at = t }))) now
unfolding start_allowed
allowed-circuit b closed t now = refl
allowed-circuit b half_open t now = refl
allowed-circuit b opened none now = refl
allowed-circuit b opened (some t) now = refl

starts-circuit :
    (o : Option SourceBreaker) (now : ℕ) → start_allowed o now ≡ lets_start (circuit_of o) now
starts-circuit none now = unfold start_allowed in refl
starts-circuit (some b) now = allowed-circuit b b.state b.retry_at now

-- After any calls on the breaker of a source its row stands for the circuit after the same calls, the
-- next start is allowed at a time exactly if that circuit lets it, and the row of every other source
-- is as it was.
pub applies-circuit :
    (s : String) (es : List Event) (l : Ledger)
    → (circuit_of (breaker_of s (applies s es l)) ≡ after_all es (circuit_of (breaker_of s l)))
      × ((now : ℕ)
          → (source_start_allowed s now (applies s es l)).0
            ≡ lets_start (after_all es (circuit_of (breaker_of s l))) now)
      × ((t : String) → t ≢ s → breaker_of t (applies s es l) ≡ breaker_of t l)
unfolding applies after_all
applies-circuit s [] l =
    (refl, unfold source_start_allowed in λ now. starts-circuit (breaker_of s l) now, λ t ne. refl)
applies-circuit s (e ∷ es) l =
    let (own, others) = apply-react s e l in
    let moved : circuit_of (breaker_of s (apply s e l)) ≡ after e (circuit_of (breaker_of s l)) =
      ap circuit_of own ∙ react-circuit s e (breaker_of s l) in
    let (same, starts, kept) = applies-circuit s es (apply s e l) in
    (
      same ∙ ap (after_all es) moved,
      λ now. starts now ∙ ap (λ c. lets_start (after_all es c) now) moved,
      λ t ne. kept t ne ∙ others t ne,
    )
