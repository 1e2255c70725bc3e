-- ===== src/Worker/Tests.antt =====
-- The properties of the delivery at concrete inputs.
use chc_rental.Base.{◌≡◌, arith}
use chc_rental.Base.Table.{find_where, rows_where, any_where}
use chc_rental.Text.{normalize_text, split, join, lower, is_space, lower_char}
use chc_rental.Models.{get, is_allowlisted, active_searches, property_type_group}
use chc_rental.Matching.{
  text_in, is_subset, overlaps, has_group, city_matches, state_matches, district_matches,
  sqft_matches, features_match, matches_search,
}
use chc_rental.Ledger.Outbox.{contains, outbox_listing}
use chc_rental.Worker.{still_matches, listed}
use chc_rental.Worker.Passes.{MayReceive}
use chc_rental.Worker.Reached.{deliver_claimed-reaches}
use chc_rental.Base.{refl, some, [], ◌∷◌}
use chc_rental.Base.Table.{count_where}
use chc_rental.Planner.Tests.{sample_allowlist, sample_person}
use chc_rental.Models.Tests.{sample_settings}
use chc_rental.Ledger.Outbox.{claim_row}
use chc_rental.Ledger.Outbox.Tests.{
  sample_listing, pending_row, claimed, claimed-IsValid, waiting, waiting-IsValid,
}
use chc_rental.Base.{none}
use chc_rental.Base.Raise.{ok}
use chc_rental.Worker.Due.{deliver_due}
use chc_rental.Worker.Turns.{OkOr, Raises, deliver_due-OkOr}
use chc_rental.Worker.Bound.{SendsUpTo, allowance, deliver_due-sends}
use chc_rental.Worker.{accepted, World, WorkerConfig, Work, deliver_claimed}
use chc_rental.Worker.Settled.{SettlesOrRaises, deliver_claimed-Settles}
use chc_rental.Worker.Sends.{SendsOnly, deliver_claimed-sends}

abbrev sample_world : World
sample_world = record {
  settings = ok sample_settings;
  settings_later = ok sample_settings;
  allowlist = ok sample_allowlist;
  allowlist_later = ok sample_allowlist;
  active_seen = λ t. ok [];
  not_before = λ p now. now;
  send = λ t text. accepted (some "m");
}

abbrev sample_config : WorkerConfig
sample_config = record { max_attempts = 4; retry_base_seconds = 60 }

abbrev sample_work : Work
sample_work = record {
  ledger = claimed;
  report = record {
    promoted = 0;
    sent = 0;
    retry_wait = 0;
    failed = 0;
    uncertain = 0;
    cancelled = 0;
    blocked = [];
    sent_outbox_ids = [];
  };
  sends = [];
  seen_marks = [];
}

deliver_claimed-Settles_example :
    SettlesOrRaises sample_config
      (claim_row 6 pending_row)
      7
      sample_world
      sample_work
      (deliver_claimed sample_config (claim_row 6 pending_row) 7 sample_world sample_work)
deliver_claimed-Settles_example =
    deliver_claimed-Settles sample_config (claim_row 6 pending_row) 7 sample_world sample_work
      claimed-IsValid (unfold count_where in refl)

deliver_claimed-sends_example :
    SendsOnly
      (claim_row 6 pending_row)
      7
      sample_world
      sample_work
      (deliver_claimed sample_config (claim_row 6 pending_row) 7 sample_world sample_work).1
deliver_claimed-sends_example =
    deliver_claimed-sends sample_config (claim_row 6 pending_row) 7 sample_world sample_work

abbrev waiting_work : Work
waiting_work = record sample_work { ledger = waiting }

deliver_due-OkOr_example :
    OkOr
      (Raises (some (9 ∷ [])) sample_world (λ row. sample_world) (sample_world ∷ []))
      (deliver_due sample_config 7 1
        (some (9 ∷ []))
        none
        sample_world
        (λ row. sample_world)
        (sample_world ∷ [])
        waiting_work).0
deliver_due-OkOr_example =
    deliver_due-OkOr sample_config 7 1 (some (9 ∷ [])) none sample_world (λ row. sample_world)
      (sample_world ∷ []) waiting_work waiting-IsValid

deliver_due-sends_example :
    SendsUpTo
      (allowance sample_world.settings (sample_world ∷ []))
      waiting_work
      (deliver_due sample_config 7 1
        (some (9 ∷ []))
        none
        sample_world
        (λ row. sample_world)
        (sample_world ∷ [])
        waiting_work).1
deliver_due-sends_example =
    deliver_due-sends sample_config 7 1 (some (9 ∷ [])) none sample_world (λ row. sample_world)
      (sample_world ∷ []) waiting_work

sample-MayReceive : MayReceive (claim_row 6 pending_row) sample_settings sample_world claimed
unfolding still_matches listed active_searches any_where find_where rows_where contains get
    is_allowlisted outbox_listing matches_search city_matches state_matches district_matches
    sqft_matches features_match is_subset overlaps text_in has_group property_type_group
    normalize_text lower join split is_space lower_char
sample-MayReceive = record {
  live_push = refl;
  incremental = refl;
  zillow = refl;
  canary = refl;
  allowlist = sample_allowlist;
  allowlist_read = refl;
  person = sample_person;
  found = refl;
  allowlisted = refl;
  immediate = refl;
  listing = sample_listing;
  context = refl;
  matches = refl;
  seen = [];
  seen_read = refl;
  unseen = refl;
}

deliver_claimed-reaches_example :
    (deliver_claimed sample_config (claim_row 6 pending_row) 7 sample_world sample_work).1.sends
    ≡ (9, pending_row.message_text) ∷ []
deliver_claimed-reaches_example =
    deliver_claimed-reaches sample_config (claim_row 6 pending_row) 7 sample_world sample_work
      sample_settings refl sample-MayReceive
      (sample_allowlist, refl, (sample_person, unfold get find_where in refl, ground arith))
