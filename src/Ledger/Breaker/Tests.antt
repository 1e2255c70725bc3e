-- ===== src/Ledger/Breaker/Tests.antt =====
-- The properties of the breakers at concrete inputs.
use chc_rental.Base.{◌+◌, ◌≡◌, refl, true, false, none, some, [], ◌∷◌, arith, leb, map}
use chc_rental.Base.Table.{find_where}
use chc_rental.Ledger.{Ledger, empty, SourceBreaker, opened}
use chc_rental.Ledger.Breaker.{
  breaker_of, minutes, start_allowed, source_start_allowed, Failure, fresh_breaker, should_open,
  record_source_failure,
}
use chc_rental.Ledger.Breaker.States.{start, success, failure}
use chc_rental.Ledger.Breaker.Outage.{
  SoundRow, applies, applies-Sound, FailedTimes, failures_open, cooldown, one_probe,
}
use chc_rental.Ledger.Breaker.Circuit.{circuit_of, lets_start, after_all, applies-circuit}
use chc_rental.Base.{ℕ, String, ◌≢◌}

abbrev sample_failure : Failure
sample_failure = record {
  at = 100;
  error_class = "timeout";
  error_message = some "no answer";
  threshold = 2;
  cooldown_minutes = 1;
  immediate_open = false;
}

abbrev open_breaker : SourceBreaker
open_breaker = record (fresh_breaker "zillow") {
  state = opened;
  consecutive_failures = 2;
  opened_at = some 10;
  retry_at = some 50;
}

abbrev outage : Ledger
outage = record empty { source_breakers = open_breaker ∷ [] }

no_row : breaker_of "zillow" empty ≡ none
unfolding breaker_of find_where
no_row = refl

open_row : breaker_of "zillow" outage ≡ some open_breaker
unfolding breaker_of find_where
open_row = refl

applies-Sound_example : SoundRow (
    breaker_of "zillow"
      (applies "zillow" (failure sample_failure ∷ start 200 ∷ success 300 ∷ []) empty))
applies-Sound_example =
    applies-Sound "zillow" (failure sample_failure ∷ start 200 ∷ success 300 ∷ []) empty
      (rw no_row tt)

failures_open_example : FailedTimes 2 2 (
    breaker_of "zillow"
      (applies "zillow" (map failure (sample_failure ∷ sample_failure ∷ [])) empty))
failures_open_example =
    failures_open "zillow" 2 (sample_failure ∷ sample_failure ∷ []) empty (ground arith)
      ((refl, refl), ((refl, refl), tt)) (rw no_row refl)

opens_again : should_open sample_failure open_breaker ≡ true
unfolding should_open
opens_again = refl

cooldown_example :
    (source_start_allowed "zillow" 150 (record_source_failure "zillow" sample_failure outage).1).0
    ≡ leb (100 + minutes 1) 150
cooldown_example = cooldown "zillow" sample_failure outage 150 (rw open_row opens_again)

started : (source_start_allowed "zillow" 60 outage).0 ≡ true
unfolding source_start_allowed start_allowed
started = rw open_row refl

one_probe_example :
    source_start_allowed "zillow" 70 (source_start_allowed "zillow" 60 outage).1
    ≡ (false, (source_start_allowed "zillow" 60 outage).1)
one_probe_example = one_probe "zillow" 60 70 outage (rw open_row refl) started

applies-circuit_example :
    (circuit_of
        (breaker_of "zillow" (applies "zillow" (failure sample_failure ∷ start 200 ∷ []) outage))
      ≡ after_all
          (failure sample_failure ∷ start 200 ∷ [])
          (circuit_of (breaker_of "zillow" outage)))
    × ((now : ℕ)
        → (source_start_allowed "zillow" now
            (applies "zillow" (failure sample_failure ∷ start 200 ∷ []) outage)).0
          ≡ lets_start
              (after_all
                (failure sample_failure ∷ start 200 ∷ [])
                (circuit_of (breaker_of "zillow" outage)))
              now)
    × ((t : String)
        → t ≢ "zillow"
        → breaker_of t (applies "zillow" (failure sample_failure ∷ start 200 ∷ []) outage)
          ≡ breaker_of t outage)
applies-circuit_example = applies-circuit "zillow" (failure sample_failure ∷ start 200 ∷ []) outage
