-- ===== src/Shadow/Tests.antt =====
-- The planning of shadow rows at a concrete input.
use chc_rental.Base.{none, some, [], ◌∷◌}
use chc_rental.Ledger.{new}
use chc_rental.Ledger.Outbox.Tests.{sample_listing, claimed}
use chc_rental.Planner.Tests.{sample_allowlist, sample_hashing}
use chc_rental.Journal.Tests.{empty_journal}
use chc_rental.Shadow.State.{Shadowing, ListingEvent}
use chc_rental.Shadow.Plan.{plan_shadow_notifications}
use chc_rental.Shadow.Queues.{Queues, plan_shadow-Queues}

abbrev sample_shadowing : Shadowing
sample_shadowing = record {
  allowlist = sample_allowlist;
  hashing = sample_hashing;
  zones = record { to_local = λ zone t. t; to_utc = λ zone t. t };
  formats = record {
    of_text = λ t. "x";
    with_commas = λ n. "1,500";
    plain = λ n. "1";
    baths = λ n. "1";
  };
  validate = λ raw. some sample_listing;
  dedup_key = λ l. "v3:1";
  material_version_hash = λ l. "v";
  event_digest = λ id key type version. "digest";
  banks = λ id. record { journal = empty_journal; seen = none };
  seen_retention_days = 90;
  upgrade_seen_key = λ key. key;
}

abbrev sample_event : ListingEvent
sample_event = record {
  event_type = new;
  identity_key = "v3:1";
  version_hash = "v";
  listing = sample_listing;
}

plan_shadow-Queues_example :
    Queues sample_shadowing
      (sample_event ∷ [])
      claimed
      (plan_shadow_notifications sample_shadowing (sample_event ∷ []) "zillow:1" 7 claimed).1
plan_shadow-Queues_example =
    plan_shadow-Queues sample_shadowing (sample_event ∷ []) 7 "zillow:1" claimed
