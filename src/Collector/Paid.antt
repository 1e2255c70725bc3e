-- ===== src/Collector/Paid.antt =====
-- How many runs a cycle asks the provider for, and what it claims of the budgets for them.
use chc_rental.Base.{ℕ, ◌+◌, ◌≤◌, String, ◌≡◌, Bool, true, false, arith, is_none, if_true}
use chc_rental.Base.Raise.{Result, ok}
use chc_rental.Models.{source_request_budget}
use chc_rental.Ledger.{QueryScope}
use chc_rental.Quota.{Quota, used, used_total}
use chc_rental.Quota.Bounds.{Reserved, taken, refused, reserve_request-Reserved}
use chc_rental.Planner.Incremental.{PlannedSourceQuery}
use chc_rental.Collector.State.{
  Remote, answer, auth_error, rate_limit_error, source_error, IncrementalCollection, Client,
  Collector, Cycle, after, ◌>>=◌,
}
use chc_rental.Collector.Start.{reserve, start_if, on_input, start}
use chc_rental.Collector.Starts.{refused-Does, deferred-Does}
use chc_rental.Collector.Once.{Unasked, Unasked-Allows, AsksOnce, paid_Once}

abbrev pub zillow_limit : Collector → ℕ
zillow_limit c = source_request_budget c.settings "zillow"

-- Every run that was asked for is claimed of the requests of the day, and the claims are within the
-- budgets where they were.
pub record Metered (c : Collector) (s t : Cycle) : Type 0 where
  pub claimed : t.starts + used "zillow" s.quota ≤ s.starts + used "zillow" t.quota
  pub within_source :
      used "zillow" s.quota ≤ zillow_limit c → used "zillow" t.quota ≤ zillow_limit c
  pub within_all :
      used_total s.quota ≤ c.settings.global_daily_request_budget
      → used_total t.quota ≤ c.settings.global_daily_request_budget

-- What a reservation makes of the state, where requests are metered.
data Claimed (c : Collector) (s : Cycle) : Result Bool × Cycle → Type 0 where
  full : Claimed c s (ok false, s)
  one :
      (q : Quota)
      → used "zillow" q ≡ used "zillow" s.quota + 1
      → used "zillow" q ≤ zillow_limit c
      → used_total q ≤ c.settings.global_daily_request_budget
      → Claimed c s (ok true, record s { quota = q })

of_Reserved :
    (c : Collector) (s : Cycle) (p : Bool × Quota)
    → Reserved "zillow" (zillow_limit c) c.settings.global_daily_request_budget s.quota p
    → Claimed c s (ok p.0, record s { quota = p.1 })
of_Reserved c s _ (taken q more total other within within_all) = one q more within within_all
of_Reserved c s _ (refused why) = full

-- What a start does to the count of runs and to the claims.
pub record StartsOne (c : Collector) (s : Cycle) (p : Result IncrementalCollection × Cycle)
    : Type 0 where
  pub one_at_most : p.1.starts ≤ s.starts + 1
  pub with_a_run :
      (k : IncrementalCollection) → p.0 ≡ ok k → is_none k.run_id ≡ true → p.1.starts ≡ s.starts
  pub is_metered : Metered c s p.1

Unasked-Metered : (c : Collector) (s t : Cycle) → Unasked s t → Metered c s t
Unasked-Metered c s t h = record {
  claimed = rw h.same_quota (omega (arith, h.same_starts));
  within_source = λ w. rw h.same_quota w;
  within_all = λ w. rw h.same_quota w;
}

Unasked-StartsOne :
    (c : Collector) (s : Cycle) (p : Result IncrementalCollection × Cycle)
    → Unasked s p.1
    → StartsOne c s p
Unasked-StartsOne c s p h = record {
  one_at_most = omega (arith, h.same_starts);
  with_a_run = λ k e gone. h.same_starts;
  is_metered = Unasked-Metered c s p.1 h;
}

-- A run that is asked for after one request was claimed.
paid-StartsOne :
    (c : Collector) (s : Cycle) (q : Quota) (p : Result IncrementalCollection × Cycle)
    → used "zillow" q ≡ used "zillow" s.quota + 1
    → used "zillow" q ≤ zillow_limit c
    → used_total q ≤ c.settings.global_daily_request_budget
    → AsksOnce (record s { quota = q }) p
    → StartsOne c s p
paid-StartsOne c s q p more within within_all h = record {
  one_at_most = h.once;
  with_a_run = h.none_without_run;
  is_metered = record {
    claimed = rw h.quota_kept (omega (arith, h.once));
    within_source = λ w. rw h.quota_kept within;
    within_all = λ w. rw h.quota_kept within_all;
  };
}

module _ (c : Collector) (client : Client) (now : ℕ) (metered : c.meter_requests ≡ true) where
  reserve-Claimed : (s : Cycle) → Claimed c s (reserve c client now s)
  unfolding reserve
  reserve-Claimed s = if_true (Claimed c s) c.meter_requests _ _ metered (
      of_Reserved c s _ (
        reserve_request-Reserved "zillow" (zillow_limit c) c.settings.global_daily_request_budget
          s.quota))

  Claimed-StartsOne :
      (query payload : String) (s : Cycle) (p : Result Bool × Cycle)
      → Claimed c s p
      → StartsOne c s (after (start_if c client now query payload) p)
  Claimed-StartsOne query payload s _ full =
      Unasked-StartsOne c s _ (deferred-Does Unasked Unasked-Allows c client now query s)
  Claimed-StartsOne query payload s _ (one q more within within_all) =
      paid-StartsOne c s q _ more within within_all
        (paid_Once c client now query payload (record s { quota = q }))

  input-StartsOne :
      (query : String) (input : Remote String) (s : Cycle)
      → StartsOne c s (on_input c client now query input s)
  unfolding on_input ◌>>=◌
  input-StartsOne query (answer payload) s =
      Claimed-StartsOne query payload s (reserve c client now s) (reserve-Claimed s)
  input-StartsOne query (auth_error m) s =
      Unasked-StartsOne c s _ (refused-Does Unasked Unasked-Allows c client now query _ s)
  input-StartsOne query (rate_limit_error r m) s =
      Unasked-StartsOne c s _ (refused-Does Unasked Unasked-Allows c client now query _ s)
  input-StartsOne query (source_error n m) s =
      Unasked-StartsOne c s _ (refused-Does Unasked Unasked-Allows c client now query _ s)

  pub start-StartsOne :
      (scope : QueryScope) (p : PlannedSourceQuery) (s : Cycle)
      → StartsOne c s (start c client now scope p s)
  unfolding start
  start-StartsOne scope p s = input-StartsOne scope.query_id (client.actor_input p.query) s
