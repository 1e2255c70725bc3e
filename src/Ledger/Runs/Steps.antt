-- ===== src/Ledger/Runs/Steps.antt =====
-- The calls that change query scopes and source runs, as one type of operations.
use chc_rental.Base.{ℕ, String, Bool, Option, List, [], ◌∷◌}
use chc_rental.Ledger.{Ledger}
use chc_rental.Ledger.Runs.{
  Scope, sync_query_scopes, claim_query_scope, defer_query_scope, release_query_scope, RunInput,
  create_source_run, attach_apify_run, Finish, finish_source_run, mark_source_run_processed,
  reset_query_baseline,
}

pub data Op : Type 0 where
  sync : List Scope → ℕ → Op
  claim : String → String → ℕ → ℕ → Op
  defer : String → ℕ → ℕ → Op
  release : String → ℕ → ℕ → Bool → Op
  create : RunInput → ℕ → Op
  attach : String → String → Option String → ℕ → Op
  finish : String → Finish → ℕ → Op
  processed : String → ℕ → Op
  reset : String → ℕ → String → Op

-- The ledger after one call, whether it returned or raised.
unfoldable pub step : Op → Ledger → Ledger
step (sync scopes now) l = sync_query_scopes scopes now l
step (claim query owner now m) l = (claim_query_scope query owner now m l).1
step (defer query now next_due) l = defer_query_scope query now next_due l
step (release query now next_due ok_) l = release_query_scope query now next_due ok_ l
step (create i now) l = (create_source_run i now l).1
step (attach run apify dataset now) l = (attach_apify_run run apify dataset now l).1
step (finish run f now) l = (finish_source_run run f now l).1
step (processed run now) l = (mark_source_run_processed run now l).1
step (reset query now reason) l = (reset_query_baseline query now reason l).1

unfoldable pub steps : List Op → Ledger → Ledger
steps [] l = l
steps (op ∷ ops) l = steps ops (step op l)
