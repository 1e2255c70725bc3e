-- ===== src/Collector/Once.antt =====
-- A start asks the provider for one run at most.
use chc_rental.Base.{ℕ, ◌+◌, ◌≤◌, String, ◌≡◌, refl, true, arith, is_none}
use chc_rental.Base.Raise.{Result, ok, err}
use chc_rental.Ledger.Runs.{create_source_run}
use chc_rental.Collector.State.{
  IncrementalCollection, Client, Collector, Cycle, M, after, ◌>>=◌, call_ledger,
}
use chc_rental.Collector.Start.{start_paid, start_actor, on_started, run_input}
use chc_rental.Collector.Does.{Allows}
use chc_rental.Collector.Named.{HasRun, on_started-Named}
use chc_rental.Collector.Starts.{started-Does}

-- Nothing is asked for, and nothing is claimed.
pub record Unasked (s t : Cycle) : Type 0 where
  pub same_starts : t.starts ≡ s.starts
  pub same_quota : t.quota ≡ s.quota

pub Unasked-Allows : Allows Unasked
Unasked-Allows = record {
  stays = λ s. record { same_starts = refl; same_quota = refl };
  goes_on = λ s t u h k. record { same_starts = cc; same_quota = cc };
  runs = λ op s. record { same_starts = refl; same_quota = refl };
  breaks = λ e s. record { same_starts = refl; same_quota = refl };
}

-- One run is asked for at most, none where the collection that comes back has no run, and the
-- request ledger is as it was.
pub record AsksOnce (s : Cycle) (p : Result IncrementalCollection × Cycle) : Type 0 where
  pub once : p.1.starts ≤ s.starts + 1
  pub none_without_run :
      (k : IncrementalCollection) → p.0 ≡ ok k → is_none k.run_id ≡ true → p.1.starts ≡ s.starts
  pub quota_kept : p.1.quota ≡ s.quota

-- The part of a start that comes after the provider was asked.
then_asked :
    (s t : Cycle) (p : Result IncrementalCollection × Cycle)
    → t.starts ≡ s.starts + 1
    → t.quota ≡ s.quota
    → Unasked t p.1
    → HasRun p.0
    → AsksOnce s p
then_asked s t (ok k, u) asked quota h named = record {
  once = omega (arith, h.same_starts);
  none_without_run = λ k' e gone. ground arith;
  quota_kept = cc (h.same_quota);
}
then_asked s t (err x, u) asked quota h named = record {
  once = omega (arith, h.same_starts);
  none_without_run = λ k' e gone. cc;
  quota_kept = cc (h.same_quota);
}

pub Unasked-Once :
    (s : Cycle) (p : Result IncrementalCollection × Cycle) → Unasked s p.1 → AsksOnce s p
Unasked-Once s p h = record {
  once = omega (arith, h.same_starts);
  none_without_run = λ k e gone. h.same_starts;
  quota_kept = h.same_quota;
}

after_Once :
    {A : Type 0} (f : A → M IncrementalCollection) (s : Cycle) (p : Result A × Cycle)
    → Unasked s p.1
    → ((a : A) (t : Cycle) → Unasked s t → AsksOnce s (f a t))
    → AsksOnce s (after f p)
after_Once f s (ok a, t) h more = more a t h
after_Once f s (err e, t) h more = Unasked-Once s (err e, t) h

module _ (c : Collector) (client : Client) (now : ℕ) where
  asked_Once :
      (query run payload : String) (s t : Cycle)
      → Unasked s t
      → AsksOnce s ((start_actor c client now payload >>= on_started c client now query run) t)
  unfolding start_actor ◌>>=◌
  asked_Once query run payload s t h =
      let t' = record t { starts = t.starts + 1 } in
      let remote = client.start_actor t.starts payload in
      then_asked s t' (on_started c client now query run remote t') (omega (arith, h.same_starts))
        h.same_quota (started-Does Unasked Unasked-Allows c client now query run remote t')
        (on_started-Named c client now query run remote t')

  pub paid_Once :
      (query payload : String) (s : Cycle) → AsksOnce s (start_paid c client now query payload s)
  unfolding start_paid ◌>>=◌
  paid_Once query payload s =
      let run = client.new_run_id s.starts in
      after_Once _ s
        (call_ledger (create_source_run (run_input c client now query run payload) now) s)
        (record { same_starts = refl; same_quota = refl })
        (λ r t h. asked_Once query run payload s t h)
