-- ===== src/Models/Tests.antt =====
-- Settings as a test of src/chc_rental would write them: everything on, one start in a cycle.
use chc_rental.Base.{true, none, some, [], ◌∷◌}
use chc_rental.Models.{Settings}

abbrev pub sample_settings : Settings
sample_settings = record {
  scrape_timezone = "America/New_York";
  scrape_time = (6, 10);
  global_daily_request_budget = 100;
  per_source_daily_request_budget = 50;
  source_daily_request_budgets = ("zillow", 5) ∷ [];
  zillow_enabled = true;
  zillow_actor = "maxcopell~zillow-scraper";
  zillow_results_limit = 25;
  zillow_max_charge_usd = 250_000;
  zillow_price_per_result_usd = 2_300;
  zillow_budget_target_share = 85;
  zillow_min_results_floor = 10;
  live_push_enabled = true;
  incremental_alerts_enabled = true;
  incremental_active_start = (8, 0);
  incremental_active_end = (23, 0);
  incremental_scheduler_tick_minutes = 15;
  incremental_query_lease_minutes = 20;
  incremental_max_new_starts_per_cycle = 1;
  incremental_event_retention_days = 180;
  incremental_source_breaker_failures = 3;
  incremental_source_breaker_cooldown_minutes = 360;
  zillow_incremental_interval_minutes = 180;
  incremental_canary_telegram_ids = 9 ∷ [];
  incremental_monthly_budget_usd = none;
  operator_alert_telegram_id = some 1;
  seen_retention_days = 90;
}
