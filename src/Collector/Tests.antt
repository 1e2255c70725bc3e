-- ===== src/Collector/Tests.antt =====
-- A cycle of the collector at a concrete input: one person, one search, an empty ledger.
use chc_rental.Base.{◌≤◌, ◌+◌, refl, true, false, none, some, [], ◌∷◌, arith}
use chc_rental.Models.Tests.{sample_settings}
use chc_rental.Planner.Tests.{sample_allowlist, sample_hashing}
use chc_rental.Ledger.{empty}
use chc_rental.Collector.State.{answer, ApifyStatus, Client, Collector, Cycle}
use chc_rental.Collector.Loop.{cycle}
use chc_rental.Collector.Paid.{Metered}
use chc_rental.Collector.Bound.{cycle-bound}

-- The provider accepts every start.
abbrev pub sample_client : Client
sample_client = record {
  actor_input = λ q. answer "payload";
  results_limit = 25;
  normalize_dataset = λ raw. answer raw;
  start_actor = λ n payload. answer (record {
    run_id = "apify";
    status = ApifyStatus.not_terminal "RUNNING";
    default_dataset_id = some "d";
    usage_total_usd = none;
    status_message = none;
  });
  get_run = λ id. answer (record {
    run_id = id;
    status = ApifyStatus.succeeded;
    default_dataset_id = some "d";
    usage_total_usd = some 50_000;
    status_message = none;
  });
  get_dataset = λ d. answer ("{}" ∷ []);
  new_run_id = λ n. "run";
  fingerprint = λ payload. payload;
}

abbrev pub sample_collector : Collector
sample_collector = record {
  settings = sample_settings;
  worker_id = "host:1";
  allow_disabled = false;
  meter_requests = true;
  config_ready = true;
  ledger_ready = true;
  allowlist = sample_allowlist;
  hashing = sample_hashing;
  local_clock = λ zone now. (12, 0);
  month_of = λ now. (0, 1_000_000);
}

abbrev pub sample_cycle : Cycle
sample_cycle = record { ledger = empty; quota = []; starts = 0 }

cycle-bound_example :
    ((cycle sample_collector sample_client 1000 sample_cycle).1.starts ≤ 0 + 1)
    × Metered sample_collector sample_cycle
        (cycle sample_collector sample_client 1000 sample_cycle).1
cycle-bound_example =
    cycle-bound sample_collector sample_client 1000 sample_cycle refl (omega arith)
