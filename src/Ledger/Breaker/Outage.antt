-- ===== src/Ledger/Breaker/Outage.antt =====
-- An outage of a source: when the breaker opens, when a probe may go out, how it closes.
use native.Mathlib.Nat.{add-zero}
use chc_rental.Base.{
  ℕ, suc, ◌+◌, ◌<◌, String, ◌≡◌, ◌≢◌, refl, true, false, Option, none, some, List, [], ◌∷◌, arith,
  leb, ltb, map, length,
}
use chc_rental.Base.Table.{All}
use chc_rental.Ledger.{Ledger, SourceBreaker, closed, recovered}
use chc_rental.Ledger.Breaker.{
  breaker_of, start_allowed, is_open, is_closed, minutes, source_start_allowed, fresh_breaker,
  Failure, should_open, failure_alert, failed_breaker, or_fresh, record_source_failure,
  healthy_breaker, acknowledged,
}
use chc_rental.Ledger.Breaker.States.{
  Event, start, release, success, acknowledge, failure, apply, react, apply-react,
}

-- What holds of the row of a source at all times.
pub record IsSound (b : SourceBreaker) : Type 0 where
  -- a source that is not closed has a time at which it may be tried again
  pub retry : is_closed b.state ≡ false → b.retry_at ≢ none
  pub closed_retry : b.state ≡ closed → b.retry_at ≡ none
  pub since : is_closed b.state ≡ false → b.opened_at ≢ none
  pub closed_since : b.state ≡ closed → b.opened_at ≡ none
  pub failing : is_closed b.state ≡ false → 0 < b.consecutive_failures
  -- a recovery is announced only of a source that is healthy, and whose failure was announced
  pub recovery :
      b.pending_alert ≡ some recovered
      → (b.state ≡ closed) × (b.consecutive_failures ≡ 0) × (b.failure_alerted_at ≢ none)

abbrev pub SoundRow : Option SourceBreaker → Type 0
SoundRow none = Unit
SoundRow (some b) = IsSound b

failed-IsSound : (f : Failure) (b : SourceBreaker) → IsSound b → IsSound (failed_breaker f b)
unfolding failed_breaker failure_alert should_open
failed-IsSound f b h = ground arith

react-Sound :
    (s : String) (e : Event) (o : Option SourceBreaker) → SoundRow o → SoundRow (react s e o)
unfolding react start_allowed healthy_breaker acknowledged
react-Sound s (start now) none h = tt
react-Sound s (start now) (some b) h = ground arith
react-Sound s (release now) none h = tt
react-Sound s (release now) (some b) h = ground arith
react-Sound s (success now) none h = ground arith
react-Sound s (success now) (some b) h = ground arith
react-Sound s (acknowledge now) none h = tt
react-Sound s (acknowledge now) (some b) h = ground arith
react-Sound s (failure f) none h = failed-IsSound f (fresh_breaker s) (ground arith)
react-Sound s (failure f) (some b) h = failed-IsSound f b h

unfoldable pub applies : String → List Event → Ledger → Ledger
applies s [] l = l
applies s (e ∷ es) l = applies s es (apply s e l)

-- Under any calls the row of a source stays sound: away from `closed` it has a time to be tried
-- again and a count of failures, and a recovery is pending only after a failure was announced.
pub applies-Sound :
    (s : String) (es : List Event) (l : Ledger)
    → SoundRow (breaker_of s l)
    → SoundRow (breaker_of s (applies s es l))
unfolding applies
applies-Sound s [] l h = h
applies-Sound s (e ∷ es) l h =
    applies-Sound s es (apply s e l)
      (rw ((apply-react s e l).0) (react-Sound s e (breaker_of s l) h))

-- The source has failed `k` times in a row, with a breaker that opens at `n`.
abbrev pub FailedTimes : ℕ → ℕ → Option SourceBreaker → Type 0
FailedTimes n k none = k ≡ 0
FailedTimes n k (some b) = (b.consecutive_failures ≡ k) × (is_closed b.state ≡ ltb k n)

-- A failure that opens the breaker at `n` and not at once.
abbrev pub CountsTo : ℕ → Failure → Type 0
CountsTo n f = (f.threshold ≡ n) × (f.immediate_open ≡ false)

fail_once :
    (s : String) (n k : ℕ) (f : Failure) (o : Option SourceBreaker)
    → 0 < n
    → CountsTo n f
    → FailedTimes n k o
    → FailedTimes n (suc k) (react s (failure f) o)
unfolding react failed_breaker should_open
fail_once s n k f none pos counts h = ground arith
fail_once s n k f (some b) pos counts h = ground arith

fail_times :
    (s : String) (n k : ℕ) (fs : List Failure) (l : Ledger)
    → 0 < n
    → All (CountsTo n) fs
    → FailedTimes n k (breaker_of s l)
    → FailedTimes n (k + length fs) (breaker_of s (applies s (map failure fs) l))
unfolding applies
fail_times s n k [] l pos counts h = rw add-zero h
fail_times s n k (f ∷ fs) l pos counts h =
    let next : FailedTimes n (suc k) (breaker_of s (apply s (failure f) l)) =
      rw ((apply-react s (failure f) l).0) (fail_once s n k f (breaker_of s l) pos counts.0 h) in
    let e : k + suc (length fs) ≡ suc k + length fs = omega arith in
    rw e (fail_times s n (suc k) fs (apply s (failure f) l) pos counts.1 next)

-- From a source that is new or healthy, failures in a row that all give one threshold, more than 0,
-- and of which none opens the breaker at once, are counted, and the breaker is closed exactly while
-- there are fewer of them than the threshold.
pub failures_open :
    (s : String) (n : ℕ) (fs : List Failure) (l : Ledger)
    → 0 < n
    → All (CountsTo n) fs
    → FailedTimes n 0 (breaker_of s l)
    → FailedTimes n (length fs) (breaker_of s (applies s (map failure fs) l))
failures_open s n fs l pos counts h =
    let e : length fs ≡ 0 + length fs = omega arith in rw e (fail_times s n 0 fs l pos counts h)

-- After a failure that opens the breaker, a start is refused until the cooldown has passed.
pub cooldown :
    (s : String) (f : Failure) (l : Ledger) (now : ℕ)
    → should_open f (or_fresh s (breaker_of s l)) ≡ true
    → (source_start_allowed s now (record_source_failure s f l).1).0
      ≡ leb (f.at + minutes f.cooldown_minutes) now
unfolding source_start_allowed
cooldown s f l now opens =
    let row : breaker_of s (record_source_failure s f l).1
        ≡ some (failed_breaker f (or_fresh s (breaker_of s l))) =
      unfold apply react in (apply-react s (failure f) l).0 in
    rw row (unfold start_allowed failed_breaker in rw opens)

-- A breaker that is half open refuses a start and is left as it is.
refused :
    (s : String) (now : ℕ) (l : Ledger)
    → start_allowed (breaker_of s l) now ≡ false
    → source_start_allowed s now l ≡ (false, l)
unfolding source_start_allowed
refused s now l barred = rw barred refl

row_of_probe :
    (s : String) (now : ℕ) (o o' : Option SourceBreaker)
    → is_open o ≡ true
    → start_allowed o now ≡ true
    → o' ≡ react s (start now) o
    → (t : ℕ) → start_allowed o' t ≡ false
unfolding react start_allowed
row_of_probe s now none o' open_ allowed e t = cc
row_of_probe s now (some b) o' open_ allowed e t = rw (e, open_, allowed) refl

-- An open breaker that let a start through refuses every further start, at any time and with the
-- ledger unchanged, as long as nothing else happens to its row.
pub one_probe :
    (s : String) (now now' : ℕ) (l : Ledger)
    → is_open (breaker_of s l) ≡ true
    → (source_start_allowed s now l).0 ≡ true
    → source_start_allowed s now' (source_start_allowed s now l).1
      ≡ (false, (source_start_allowed s now l).1)
one_probe s now now' l open_ allowed =
    let l' = (source_start_allowed s now l).1 in
    let row : breaker_of s l' ≡ react s (start now) (breaker_of s l) =
      unfold apply in (apply-react s (start now) l).0 in
    refused s now' l' (
      row_of_probe s now (breaker_of s l) (breaker_of s l') open_
        (unfold source_start_allowed in allowed) row now')
