-- ===== src/Collector/Does.antt =====
-- What every step of the collector does to the state, put together along its calls: a relation that
-- holds of the methods it calls holds of the cycle.
use chc_rental.Base.{Bool, true, false, if◌then◌else◌}
use chc_rental.Base.Raise.{Result, ok, err}
use chc_rental.Ledger.Runs.Steps.{Op, step}
use chc_rental.Ledger.Breaker.States.{Event, apply}
use chc_rental.Collector.State.{Cycle, M, after, ◌>>=◌, of_ledger}
use chc_rental.Ledger.{Ledger}

-- What a relation must allow to hold of a cycle: to stay, to go on, and every method that the cycle
-- calls on query scopes, source runs and the breaker of its source.
pub record Allows (R : Cycle → Cycle → Type 0) : Type 0 where
  pub stays : (s : Cycle) → R s s
  pub goes_on : (s t u : Cycle) → R s t → R t u → R s u
  pub runs : (op : Op) (s : Cycle) → R s (record s { ledger = step op s.ledger })
  pub breaks : (e : Event) (s : Cycle) → R s (record s { ledger = apply "zillow" e s.ledger })

module _ (R : Cycle → Cycle → Type 0) (allows : Allows R) where
  abbrev pub Does : {A : Type 0} → M A → Type 0
  Does m = (s : Cycle) → R s (m s).1

  after-Does :
      {A B : Type 0} (f : A → M B) (s : Cycle) (p : Result A × Cycle)
      → R s p.1
      → ((a : A) → Does (f a))
      → R s (after f p).1
  after-Does f s (ok a, t) h does = allows.goes_on s t (f a t).1 h (does a t)
  after-Does f s (err e, t) h does = h

  pub Does->>= :
      {A B : Type 0} (m : M A) (f : A → M B) → Does m → ((a : A) → Does (f a)) → Does (m >>= f)
  unfolding ◌>>=◌
  Does->>= m f h does s = after-Does f s (m s) (h s) does

  pub Does-if : {A : Type 0} (b : Bool) (m n : M A) → Does m → Does n → Does (if b then m else n)
  Does-if true m n h k = h
  Does-if false m n h k = k

  pub Does-of_ledger : {A : Type 0} (f : Ledger → A) → Does (of_ledger f)
  Does-of_ledger f s = allows.stays s
