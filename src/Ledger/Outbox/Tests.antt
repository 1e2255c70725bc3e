-- ===== src/Ledger/Outbox/Tests.antt =====
-- Test data for the ledger, and the properties of the outbox at concrete inputs.
use chc_rental.Base.{◌≤◌, ◌≡◌, refl, none, some, [], ◌∷◌, arith}
use chc_rental.Base.Table.{find_where, count_where, any_where}
use chc_rental.Base.Raise.{ok}
use chc_rental.Models.{PropertyType, Listing}
use chc_rental.Ledger.{Ledger, empty, OutboxRow, pending, sent, EventType}
use chc_rental.Ledger.Outbox.{
  has_id, ShadowIntent, queued, duplicate, shadow_row, insertable, insert_shadow, enqueue_new,
  enqueue_shadow, claim_due_outbox, claim_row,
}
use chc_rental.Ledger.Outbox.Steps.{enqueue, promote, mark_sent, retry_failed, cancel, step, steps}
use chc_rental.Ledger.Outbox.Receipts.{step-IsValid}
use chc_rental.Ledger.Outbox.Valid.{IsValid}
use chc_rental.Ledger.Outbox.Lifecycle.{SameOutcome, step-Follows, steps-final}
use chc_rental.Ledger.Outbox.Moves.{Follows}
use chc_rental.Ledger.Outbox.Cap.{slots_used, steps-cap}
use chc_rental.Ledger.Outbox.Claim.{Claims, claim_due_outbox-Claims}
use chc_rental.Ledger.Outbox.Idempotent.{enqueue_once}

abbrev pub sample_listing : Listing
sample_listing = record {
  source = "zillow";
  source_listing_id = some "77";
  url = "https://example.test/77";
  address = b'1' ∷ b' ' ∷ b'E' ∷ [];
  unit = none;
  city = b'A' ∷ [];
  state = some (b'T' ∷ b'X' ∷ []);
  postal_code = none;
  district = none;
  price = 1500;
  property_type = PropertyType.apartment;
  beds = 2;
  baths = 100;
  sqft = none;
  features = [];
  first_seen_at = none;
}

-- A ledger with one version of one listing.
abbrev pub one_version : Ledger
one_version = record empty {
  listing_versions =
      record {
        identity_key = "k";
        version_hash = "v";
        canonical_json = sample_listing;
        source_posted_at = none;
        first_observed_at = 1;
        last_observed_at = 1;
      }
      ∷ [];
}

abbrev pub sample_intent : ShadowIntent
sample_intent = record {
  idempotency_key = "i";
  telegram_id = 9;
  search_id = "s";
  primary_search_name = "two beds";
  matching_search_ids = "s" ∷ [];
  identity_key = "k";
  version_hash = "v";
  event_type = EventType.new;
  message_text = "new listing";
  not_before = 5;
  created_at = 4;
  cap_window_start = 0;
  cap_window_end = 100;
  daily_cap = 1;
}

abbrev pub shadowed : Ledger
shadowed = record one_version { outbox = shadow_row sample_intent 1 ∷ []; next_outbox_id = 2 }

abbrev pub pending_row : OutboxRow
pending_row = record (shadow_row sample_intent 1) { status = pending }

abbrev pub waiting : Ledger
waiting = record shadowed { outbox = pending_row ∷ [] }

abbrev pub claimed : Ledger
claimed = record shadowed { outbox = claim_row 6 pending_row ∷ [] }

pub claimed-IsValid : IsValid claimed
unfolding any_where
claimed-IsValid = record {
  unique_ids = (refl, tt);
  unique_keys = (refl, tt);
  ids_used = (ground arith, tt);
  receipts_match = (refl, tt);
  receipts_used = tt;
  one_receipt = tt;
}

pub waiting-IsValid : IsValid waiting
unfolding any_where
waiting-IsValid = record {
  unique_ids = (refl, tt);
  unique_keys = (refl, tt);
  ids_used = (ground arith, tt);
  receipts_match = (refl, tt);
  receipts_used = tt;
  one_receipt = tt;
}

abbrev sent_row_ : OutboxRow
sent_row_ = record pending_row { status = sent; sent_at = some 7 }

abbrev delivered : Ledger
delivered = record shadowed { outbox = sent_row_ ∷ [] }

step-IsValid_example : IsValid (step (mark_sent 1 7 (some "m")) claimed)
step-IsValid_example = step-IsValid (mark_sent 1 7 (some "m")) claimed claimed-IsValid

step-Follows_example :
    Follows
      (find_where (has_id 1) shadowed.outbox)
      (find_where (has_id 1) (step (promote 1 6) shadowed).outbox)
step-Follows_example = step-Follows (promote 1 6) 1 shadowed

steps-final_example :
    SameOutcome sent_row_
      (find_where (has_id 1) (steps (retry_failed 1 8 ∷ cancel 1 "late" ∷ []) delivered).outbox)
steps-final_example =
    steps-final (retry_failed 1 8 ∷ cancel 1 "late" ∷ []) 1 delivered sent_row_
      (unfold find_where in refl) refl

steps-cap_example :
    slots_used "s" 0 100 (steps (enqueue sample_intent ∷ enqueue sample_intent ∷ []) one_version)
    ≤ 1
steps-cap_example =
    steps-cap "s" 0 100 1 (enqueue sample_intent ∷ enqueue sample_intent ∷ []) one_version
      (
        λ own after before. (refl, refl, ground arith),
        (λ own after before. (refl, refl, ground arith), tt),
      )
      (unfold count_where in ground arith)

claim_due_outbox-Claims_example :
    Claims 6 (9 ∷ []) none waiting (claim_due_outbox 6 (9 ∷ []) none waiting)
claim_due_outbox-Claims_example = claim_due_outbox-Claims 6 (9 ∷ []) none waiting waiting-IsValid

queued_sample :
    (enqueue_shadow sample_intent one_version).0
    ≡ ok (record { outcome = queued; row = some (shadow_row sample_intent 1) })
unfolding enqueue_shadow enqueue_new insert_shadow insertable find_where count_where any_where
queued_sample = refl

enqueue_once_example :
    (r : OutboxRow) × (enqueue_shadow sample_intent
        (steps (promote 1 6 ∷ []) (enqueue_shadow sample_intent one_version).1)
      ≡ (
        ok (record { outcome = duplicate; row = some r }),
        steps (promote 1 6 ∷ []) (enqueue_shadow sample_intent one_version).1,
      ))
    × (r.idempotency_key ≡ "i")
enqueue_once_example =
    enqueue_once sample_intent sample_intent (promote 1 6 ∷ []) one_version
      (record { outcome = queued; row = some (shadow_row sample_intent 1) }) queued_sample refl refl
