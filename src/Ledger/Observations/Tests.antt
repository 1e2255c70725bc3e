-- ===== src/Ledger/Observations/Tests.antt =====
-- The properties of the observations at concrete inputs.
use chc_rental.Base.{◌≡◌, refl, true, none, some, List, [], ◌∷◌, map}
use chc_rental.Base.Table.{find_where}
use chc_rental.Base.Raise.{ok}
use chc_rental.Ledger.{Ledger, empty}
use chc_rental.Ledger.Runs.Tests.{scope_row, done_row}
use chc_rental.Ledger.Outbox.Tests.{sample_listing}
use chc_rental.Ledger.Observations.{
  ObservationInput, ObservationOutcome, new_outcome, persisted_event, record_item, record_items,
  record_run, record_observations,
}
use chc_rental.Ledger.Observations.Replay.{replay}
use chc_rental.Ledger.Observations.Once.{IsValid, record_observations-IsValid}

abbrev sample_item : ObservationInput
sample_item = record {
  identity_key = "k";
  version_hash = "v";
  canonical_json = sample_listing;
  source = "zillow";
  source_listing_id = some "77";
  source_url = "https://example.test/77";
  source_posted_at = none;
}

abbrev finished : Ledger
finished = record empty { query_scopes = scope_row ∷ []; source_runs = done_row ∷ [] }

abbrev outcomes : List ObservationOutcome
outcomes = new_outcome true done_row sample_item finished ∷ []

abbrev recorded : Ledger
recorded = (record_observations "r" (sample_item ∷ []) 40 finished).1

first_time : record_observations "r" (sample_item ∷ []) 40 finished ≡ (ok outcomes, recorded)
unfolding record_observations find_where record_run record_items record_item persisted_event
first_time = refl

replay_example :
    (again : List ObservationOutcome) × (record_observations "r" (sample_item ∷ []) 60 recorded
      ≡ (ok again, recorded))
    × (map (λ o. o.event_type) again ≡ map (λ o. o.event_type) outcomes)
replay_example = replay "r" (sample_item ∷ []) 40 60 finished recorded outcomes first_time

record_observations-IsValid_example : IsValid recorded
record_observations-IsValid_example =
    record_observations-IsValid "r" (sample_item ∷ []) 40 finished (record { seen = tt; once = tt })
