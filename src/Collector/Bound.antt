-- ===== src/Collector/Bound.antt =====
-- A cycle as a whole asks for a bounded number of runs, each within the budgets of the day.
use chc_rental.Base.{
  ℕ, ◌+◌, ◌≤◌, String, ◌≡◌, refl, Bool, true, false, Option, none, some, List, [], ◌∷◌, arith, not,
  ◌&&◌, if-keeps,
}
use chc_rental.Base.Raise.{Result, ok, err, value}
use chc_rental.Ledger.{Ledger, QueryScope, SourceBreaker, BreakerState}
use chc_rental.Ledger.Breaker.{breaker_of}
use chc_rental.Planner.Incremental.{PlannedSourceQuery}
use chc_rental.Collector.State.{Client, Collector, Cycle, M, after, ◌>>=◌, require}
use chc_rental.Collector.Loop.{
  Report, if_allowed, start_gated, start_found, start_due, in_window, collect, if_enabled, cycle,
  starts_left, inside_active_window, start_allowed, resume_all, recover_all, plan,
}
use chc_rental.Collector.Does.{Allows}
use chc_rental.Collector.Parts.{start_allowed-Does, resume_all-Does, recover_all-Does}
use chc_rental.Collector.Whole.{cycle-Does}
use chc_rental.Collector.Once.{Unasked, Unasked-Allows}
use chc_rental.Collector.Paid.{Metered, start-StartsOne}
use chc_rental.Collector.Turns.{AtMost, loop-AtMost}

module _ (c : Collector) (client : Client) (now : ℕ) (metered : c.meter_requests ≡ true)
    (positive : 1 ≤ c.settings.incremental_max_new_starts_per_cycle) where
  abbrev limit : ℕ
  limit = c.settings.incremental_max_new_starts_per_cycle

  starts_left-le : (b : Option SourceBreaker) → starts_left c.settings b ≤ limit
  starts_left-le none = omega arith
  starts_left-le (some b) = by_state b.state
    where
      by_state :
          (state : BreakerState)
          → starts_left c.settings (some (record b { state = state })) ≤ limit
      by_state BreakerState.closed = omega arith
      by_state BreakerState.opened = omega arith
      by_state BreakerState.half_open = positive

  Unasked-AtMost :
      {A : Type 0} (s : Cycle) (p : Result A × Cycle) → Unasked s p.1 → AtMost (s.starts + limit) p
  Unasked-AtMost s p h = omega (arith, h.same_starts)

  after-AtMost :
      {A B : Type 0} (f : A → M B) (s : Cycle) (p : Result A × Cycle)
      → Unasked s p.1
      → ((a : A) (t : Cycle) → Unasked s t → AtMost (s.starts + limit) (f a t))
      → AtMost (s.starts + limit) (after f p)
  after-AtMost f s (ok a, t) h within = within a t h
  after-AtMost f s (err e, t) h within = omega (arith, h.same_starts)

  also : (s t u : Cycle) → Unasked s t → Unasked t u → Unasked s u
  also = Unasked-Allows.goes_on

  allowed-AtMost :
      (open_ : List String) (planned : List PlannedSourceQuery) (due : List QueryScope) (r : Report)
      (b : Bool) (s t : Cycle)
      → Unasked s t
      → AtMost (s.starts + limit) (if_allowed c client now open_ planned due r b t)
  unfolding ◌>>=◌
  allowed-AtMost open_ planned due r false s t h = omega (arith, h.same_starts)
  allowed-AtMost open_ planned due r true s t h =
      let left = starts_left c.settings (breaker_of "zillow" t.ledger) in
      omega (
        arith,
        h.same_starts,
        starts_left-le (breaker_of "zillow" t.ledger),
        loop-AtMost c client now metered open_ planned due left r t,
      )

  gated-AtMost :
      (open_ : List String) (planned : List PlannedSourceQuery) (due : List QueryScope) (r : Report)
      (b : Bool) (s t : Cycle)
      → Unasked s t
      → AtMost (s.starts + limit) (start_gated c client now open_ planned due r b t)
  unfolding ◌>>=◌
  gated-AtMost open_ planned due r true s t h = omega (arith, h.same_starts)
  gated-AtMost open_ planned due r false s t h =
      after-AtMost _ s (start_allowed c client now t)
        (also s t _ h (start_allowed-Does Unasked Unasked-Allows c client now t))
        (λ b u k. allowed-AtMost open_ planned due r b s u k)

  found-AtMost :
      (planned : List PlannedSourceQuery) (r : Report) (l : Ledger) (due : List QueryScope)
      (s t : Cycle)
      → Unasked s t
      → AtMost (s.starts + limit) (start_found c client now planned r l due t)
  found-AtMost planned r l [] s t h = omega (arith, h.same_starts)
  found-AtMost planned r l (q ∷ qs) s t h = gated-AtMost _ planned (q ∷ qs) r _ s t h

  window-AtMost :
      (planned : List PlannedSourceQuery) (r : Report) (s t : Cycle)
      → Unasked s t
      → AtMost (s.starts + limit) (in_window c client now planned r t)
  unfolding ◌>>=◌ start_due
  window-AtMost planned r s t h =
      if-keeps (λ (m : M Report). AtMost (s.starts + limit) (m t))
        (inside_active_window c.settings (c.local_clock c.settings.scrape_timezone now)) _ _
        (found-AtMost planned r t.ledger _ s t h) (omega (arith, h.same_starts))

  collect-AtMost :
      (planned : List PlannedSourceQuery) (r : Report) (s t : Cycle)
      → Unasked s t
      → AtMost (s.starts + limit) (collect c client now planned r t)
  unfolding ◌>>=◌ collect
  collect-AtMost planned r s t h =
      after-AtMost _ s (resume_all c client now _ r t)
        (also s t _ h (resume_all-Does Unasked Unasked-Allows c client now _ r t))
        (λ r' u k.
          after-AtMost _ s (recover_all c client now _ r' u)
            (also s u _ k (recover_all-Does Unasked Unasked-Allows c client now _ r' u))
            (λ r'' v m. window-AtMost planned r'' s v m))

  enabled-AtMost :
      (planned : List PlannedSourceQuery) (r : Report) (s t : Cycle)
      → Unasked s t
      → AtMost (s.starts + limit) (if_enabled c client now planned r t)
  enabled-AtMost planned r s t h =
      let idle : t.starts ≤ s.starts + limit = omega (arith, h.same_starts) in
      if-keeps (λ (m : M Report). AtMost (s.starts + limit) (m t))
        (not c.settings.incremental_alerts_enabled && not c.allow_disabled) _ _ idle
        (if-keeps (λ (m : M Report). AtMost (s.starts + limit) (m t))
          (not c.settings.zillow_enabled && not c.allow_disabled) _ _ idle
          (collect-AtMost planned r s t h))

  require-Unasked : (b : Bool) (s : Cycle) → Unasked s (require b value s).1
  require-Unasked true s = Unasked-Allows.stays s
  require-Unasked false s = Unasked-Allows.stays s

  cycle-AtMost : (s : Cycle) → AtMost (s.starts + limit) (cycle c client now s)
  unfolding ◌>>=◌ cycle
  cycle-AtMost s =
      after-AtMost _ s (require c.config_ready value s) (require-Unasked c.config_ready s) (λ a t h.
        after-AtMost _ s (require c.ledger_ready value t)
          (also s t _ h (require-Unasked c.ledger_ready t))
          (λ a' u k. after-AtMost _ s (plan c client now u) k (λ p v m.
            enabled-AtMost p.0 _ s _
              (also s v _ m (record { same_starts = refl; same_quota = refl })))))

Metered-Allows : (c : Collector) → Allows (Metered c)
Metered-Allows c = record {
  stays = λ s. record { claimed = omega arith; within_source = λ w. w; within_all = λ w. w };
  goes_on = λ s t u h k. record {
    claimed = omega (arith, h.claimed, k.claimed);
    within_source = λ w. k.within_source (h.within_source w);
    within_all = λ w. k.within_all (h.within_all w);
  };
  runs = λ op s. record { claimed = omega arith; within_source = λ w. w; within_all = λ w. w };
  breaks = λ e s. record { claimed = omega arith; within_source = λ w. w; within_all = λ w. w };
}

-- A cycle that is metered asks the provider for no more runs than the settings allow for a cycle,
-- claims one request of the day for each of them, and leaves the claims of the day within the budget
-- of Zillow and within that of all sources, where they were. The limit of a cycle is positive, as the
-- validator of the settings wants it.
pub cycle-bound :
    (c : Collector) (client : Client) (now : ℕ) (s : Cycle)
    → c.meter_requests ≡ true
    → 1 ≤ c.settings.incremental_max_new_starts_per_cycle
    → ((cycle c client now s).1.starts ≤ s.starts + c.settings.incremental_max_new_starts_per_cycle)
      × Metered c s (cycle c client now s).1
cycle-bound c client now s metered positive = (
  cycle-AtMost c client now metered positive s,
  cycle-Does (Metered c) (Metered-Allows c) c client now
      (λ scope p t. (start-StartsOne c client now metered scope p t).is_metered) s,
)
