-- ===== src/Worker/Gates.antt =====
-- `_global_gate`, `_targets` and `_eligibility` of src/chc_rental/delivery_worker.py.
use chc_rental.Base.{
  ℕ, String, Bool, true, false, ◌&&◌, ◌||◌, not, Option, none, some, List, [], ◌∷◌, str_eq,
  if◌then◌else◌,
}
use chc_rental.Base.Table.{rows_where, any_where}
use chc_rental.Base.Raise.{Result, ok, err, value}
use chc_rental.Models.{
  DeliveryMode, daily, immediate, Search, Profile, active_searches, Allowlist, AllowlistEntry, get,
  is_allowlisted, Listing, Settings,
}
use chc_rental.Matching.{matches_search}
use chc_rental.Ledger.{Ledger, OutboxRow}
use chc_rental.Ledger.Outbox.{contains, outbox_listing}
use chc_rental.Worker.State.{World, Eligibility}

-- `_global_gate`
unfoldable pub global_gate : Settings → Option String
global_gate s =
    if not s.live_push_enabled
    then some "live_push_enabled is off"
    else if not s.incremental_alerts_enabled
    then some "incremental_alerts_enabled is off"
    else if not s.zillow_enabled
    then some "Zillow source is off"
    else none

-- `text in texts`
unfoldable pub listed : String → List String → Bool
listed t [] = false
listed t (s ∷ texts) = str_eq s t || listed t texts

abbrev pub is_matching : List String → Search → Bool
is_matching ids s = elim s.search_id [ none ↦ false | some id ↦ listed id ids ]

-- `searches` and the test that one of them matches.
unfoldable pub still_matches : Listing → List String → Profile → Bool
still_matches l ids p =
    any_where (matches_search l) (rows_where (is_matching ids) (active_searches p))

abbrev pub temporary : String → Eligibility
temporary reason = record { eligible = false; permanent = false; reason = reason }

abbrev pub permanent_ : String → Eligibility
permanent_ reason = record { eligible = false; permanent = true; reason = reason }

abbrev pub is_immediate : DeliveryMode → Bool
is_immediate daily = false
is_immediate immediate = true

-- The test on the seen keys.
unfoldable pub seen_eligibility : OutboxRow → Result (List String) → Result Eligibility
seen_eligibility row (err e) = err e
seen_eligibility row (ok seen) =
    if listed row.identity_key seen
    then ok (permanent_ "listing was already sent by the daily path")
    else ok (record { eligible = true; permanent = false; reason = "eligible" })

-- The tests on a listing that was found.
unfoldable pub listing_eligibility : OutboxRow → World → Profile → Listing → Result Eligibility
listing_eligibility row w p l =
    if not (still_matches l row.matching_search_ids p)
    then ok (permanent_ "no current active search still matches")
    else seen_eligibility row (w.active_seen row.telegram_id)

abbrev pub listing_or_invalid : OutboxRow → World → Profile → Result Listing → Result Eligibility
listing_or_invalid row w p (ok l) = listing_eligibility row w p l
listing_or_invalid row w p (err e) = ok (permanent_ "listing context is invalid: AlertStoreError")

-- The tests on a person who was found. A person is allowlisted when active.
unfoldable pub person_eligibility :
    OutboxRow → World → Ledger → Allowlist → Option AllowlistEntry → Result Eligibility
person_eligibility row w l allowlist none = ok (permanent_ "recipient is no longer allowlisted")
person_eligibility row w l allowlist (some person) =
    if not (is_allowlisted allowlist row.telegram_id)
    then ok (permanent_ "recipient is no longer allowlisted")
    else if not (is_immediate person.profile.delivery_mode)
    then ok (temporary "recipient delivery mode is not immediate")
    else listing_or_invalid row w person.profile (outbox_listing row.outbox_id l)

unfoldable pub allowlist_eligibility :
    OutboxRow → World → Ledger → Result Allowlist → Result Eligibility
allowlist_eligibility row w l (err e) = err e
allowlist_eligibility row w l (ok allowlist) =
    person_eligibility row w l allowlist (get allowlist row.telegram_id)

-- `_eligibility`, under settings that were read before; it raises what the store raises.
unfoldable pub eligibility : OutboxRow → Settings → World → Ledger → Result Eligibility
eligibility row s w l = elim (global_gate s) [
  | some gate ↦ ok (temporary gate)
  | none ↦
      if not (contains s.incremental_canary_telegram_ids row.telegram_id)
      then ok (temporary "recipient is not an incremental canary")
      else allowlist_eligibility row w l w.allowlist
]

-- `requested_telegram_ids <= canaries`
unfoldable pub all_in : List ℕ → List ℕ → Bool
all_in [] canaries = true
all_in (t ∷ ts) canaries = contains canaries t && all_in ts canaries

-- `_targets`
unfoldable pub targets : Settings → Option (List ℕ) → Result (List ℕ)
targets s none = ok s.incremental_canary_telegram_ids
targets s (some ids) = if all_in ids s.incremental_canary_telegram_ids then ok ids else err value
