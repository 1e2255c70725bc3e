-- ===== src/Collector/Named.antt =====
-- What a start comes back with: the id of its run, once there is one.
use chc_rental.Base.{
  ℕ, String, ◌≡◌, refl, Bool, true, false, Option, none, some, List, Option-cases, inl, inr,
  is_none, str_eq, if◌then◌else◌,
}
use chc_rental.Base.Raise.{Result, ok, err}
use chc_rental.Models.{Settings}
use chc_rental.Ledger.{SourceRun, RunStatus}
use chc_rental.Collector.State.{
  Raw, Remote, answer, auth_error, rate_limit_error, source_error, ApifyStatus, ApifyRunState,
  CollectionStatus, IncrementalCollection, Client, Collector, Cycle, M, after, ◌>>=◌,
}
use chc_rental.Collector.Remote.{
  on_failed, on_missing_dataset, on_dataset, on_succeeded, process_run, process_remote, or_text,
  read_dataset, unread,
}
use chc_rental.Collector.Start.{start_failed, on_started}

-- A collection that is returned has a run.
abbrev pub HasRun : Result IncrementalCollection → Type 0
HasRun (ok k) = is_none k.run_id ≡ false
HasRun (err e) = Unit

abbrev pub Named : M IncrementalCollection → Type 0
Named m = (s : Cycle) → HasRun (m s).0

after-Named :
    {A : Type 0} (f : A → M IncrementalCollection) (p : Result A × Cycle)
    → ((a : A) → Named (f a))
    → HasRun (after f p).0
after-Named f (ok a, s) named = named a s
after-Named f (err e, s) named = tt

pub Named->>= :
    {A : Type 0} (m : M A) (f : A → M IncrementalCollection)
    → ((a : A) → Named (f a))
    → Named (m >>= f)
unfolding ◌>>=◌
Named->>= m f named s = after-Named f (m s) named

Named-if :
    (b : Bool) (m n : M IncrementalCollection) → Named m → Named n → Named (if b then m else n)
Named-if true m n h k = h
Named-if false m n h k = k

module _ (st : Settings) (c : Client) (now : ℕ) where
  on_missing-Named :
      (run : SourceRun) (remote : ApifyRunState) → Named (on_missing_dataset st c now run remote)
  unfolding on_missing_dataset
  on_missing-Named run remote = Named->>= _ _ (λ u s. refl)

  on_dataset-Named :
      (run : SourceRun) (remote : ApifyRunState) (d : String) (r : Remote (List Raw × List Raw))
      → Named (on_dataset st c now run remote d r)
  unfolding on_dataset unread
  on_dataset-Named run remote d (answer (raw, records)) = Named->>= _ _ (λ u s. refl)
  on_dataset-Named run remote d (auth_error m) = λ s. refl
  on_dataset-Named run remote d (rate_limit_error r m) = λ s. refl
  on_dataset-Named run remote d (source_error n m) = λ s. refl

  on_failed-Named :
      (run : SourceRun) (remote : ApifyRunState)
      (f : RunStatus × CollectionStatus × String × String)
      → Named (on_failed st c now run remote f)
  unfolding on_failed
  on_failed-Named run remote (terminal, status, error_class, text) = Named->>= _ _ (λ u s. refl)

  on_succeeded-Named :
      (run : SourceRun) (remote : ApifyRunState) → Named (on_succeeded st c now run remote)
  unfolding on_succeeded
  on_succeeded-Named run remote =
      elim (Option-cases (or_text remote.default_dataset_id run.default_dataset_id)) [
        | inl e ↦ rw (e, on_succeeded) (on_missing-Named run remote)
        | inr (d, e) ↦
            rw (e, on_succeeded)
              (Named-if (str_eq d "") _ _ (on_missing-Named run remote)
                (on_dataset-Named run remote d (read_dataset c d)))
      ]

  process_run-Named :
      (run : SourceRun) (remote : ApifyRunState) → Named (process_run st c now run remote)
  unfolding process_run
  process_run-Named run remote = by_status remote.status
    where
      by_status :
          (status : ApifyStatus)
          → Named (process_run st c now run (record remote { status = status }))
      by_status (ApifyStatus.not_terminal t) = λ s. refl
      by_status ApifyStatus.succeeded =
          on_succeeded-Named run (record remote { status = ApifyStatus.succeeded })
      by_status ApifyStatus.failed =
          on_failed-Named run (record remote { status = ApifyStatus.failed }) _
      by_status ApifyStatus.timed_out =
          on_failed-Named run (record remote { status = ApifyStatus.timed_out }) _
      by_status ApifyStatus.aborted =
          on_failed-Named run (record remote { status = ApifyStatus.aborted }) _

  process_remote-Named :
      (run : Option SourceRun) (remote : ApifyRunState) → Named (process_remote st c now run remote)
  unfolding process_remote
  process_remote-Named none remote = λ s. tt
  process_remote-Named (some run) remote = process_run-Named run remote

module _ (c : Collector) (client : Client) (now : ℕ) where
  failed-Named :
      (query run : String) (status : CollectionStatus) (e t u : String) (next_due : ℕ)
      → Named (start_failed c client now query run status e t u next_due)
  unfolding start_failed
  failed-Named query run status e t u next_due = Named->>= _ _ (λ v. Named->>= _ _ (λ w s. refl))

  pub on_started-Named :
      (query run : String) (remote : Remote ApifyRunState)
      → Named (on_started c client now query run remote)
  unfolding on_started
  on_started-Named query run (answer remote) =
      Named->>= _ _ (λ v. Named->>= _ _ (λ r. process_remote-Named c.settings client now r remote))
  on_started-Named query run (auth_error m) =
      failed-Named query run CollectionStatus.auth_failed _ _ _ _
  on_started-Named query run (rate_limit_error r m) =
      failed-Named query run CollectionStatus.rate_limited _ _ _ _
  on_started-Named query run (source_error n m) =
      failed-Named query run CollectionStatus.start_uncertain _ _ _ _
