-- ===== src/Worker/Passes.antt =====
-- What the gates of `_eligibility` let through, one by one.
use chc_rental.Base.{
  String, List, ◌≡◌, refl, Bool, true, false, not, Option, none, some, arith, Option-cases, inl,
  inr, if◌then◌else◌,
}
use chc_rental.Base.Raise.{Result, ok, err}
use chc_rental.Models.{get, is_allowlisted, Allowlist, AllowlistEntry, Profile, Listing, Settings}
use chc_rental.Ledger.{Ledger, OutboxRow}
use chc_rental.Ledger.Outbox.{contains, outbox_listing}
use chc_rental.Worker.{
  World, Eligibility, global_gate, still_matches, listed, is_immediate, seen_eligibility,
  listing_eligibility, listing_or_invalid, person_eligibility, allowlist_eligibility, eligibility,
  temporary, permanent_,
}

-- Under the settings `s` the recipient may be sent the message of the row: every reading of the store
-- that the gates need has returned, and its gate is open.
pub record MayReceive (row : OutboxRow) (s : Settings) (w : World) (l : Ledger) : Type 0 where
  pub live_push : s.live_push_enabled ≡ true
  pub incremental : s.incremental_alerts_enabled ≡ true
  pub zillow : s.zillow_enabled ≡ true
  pub canary : contains s.incremental_canary_telegram_ids row.telegram_id ≡ true
  pub allowlist : Allowlist
  pub allowlist_read : w.allowlist ≡ ok allowlist
  pub person : AllowlistEntry
  pub found : get allowlist row.telegram_id ≡ some person
  pub allowlisted : is_allowlisted allowlist row.telegram_id ≡ true
  pub immediate : is_immediate person.profile.delivery_mode ≡ true
  pub listing : Listing
  pub context : outbox_listing row.outbox_id l ≡ ok listing
  pub matches : still_matches listing row.matching_search_ids person.profile ≡ true
  pub seen : List String
  pub seen_read : w.active_seen row.telegram_id ≡ ok seen
  pub unseen : listed row.identity_key seen ≡ false

-- The call returned, and what it returned lets the row through.
abbrev pub LetsThrough : Result Eligibility → Type 0
LetsThrough r = (e : Eligibility) × (r ≡ ok e) × (e.eligible ≡ true)

refused : (e : Eligibility) → e.eligible ≡ false → LetsThrough (ok e) → ⊥
refused e shut (e', same, open_) = cc

pub passes :
    (c : Bool) (e : Eligibility) (r : Result Eligibility)
    → e.eligible ≡ false
    → LetsThrough (if not c then ok e else r)
    → (c ≡ true) × LetsThrough r
passes true e r shut h = (refl, h)
passes false e r shut h = absurd (refused e shut h)

pub gates_open :
    (s : Settings)
    → global_gate s ≡ none
    → (s.live_push_enabled ≡ true)
      × (s.incremental_alerts_enabled ≡ true)
      × (s.zillow_enabled ≡ true)
unfolding global_gate
gates_open s h = ground arith

seen_open :
    (row : OutboxRow) (r : Result (List String))
    → LetsThrough (seen_eligibility row r)
    → (seen : List String) × (r ≡ ok seen) × (listed row.identity_key seen ≡ false)
unfolding seen_eligibility
seen_open row (err e) (e', h, open_) = cc
seen_open row (ok seen) h = (seen, refl, unlisted (listed row.identity_key seen) h)
  where
    unlisted :
        (b : Bool)
        → LetsThrough (
            if b
            then ok (permanent_ "listing was already sent by the daily path")
            else ok (record { eligible = true; permanent = false; reason = "eligible" }))
        → b ≡ false
    unlisted true e = absurd (refused _ refl e)
    unlisted false e = refl

pub listing_open :
    (row : OutboxRow) (w : World) (p : Profile) (l : Listing)
    → LetsThrough (listing_eligibility row w p l)
    → (still_matches l row.matching_search_ids p ≡ true)
      × ((seen : List String) × (w.active_seen row.telegram_id ≡ ok seen)
          × (listed row.identity_key seen ≡ false))
unfolding listing_eligibility
listing_open row w p l h =
    let (matches, rest) = passes (still_matches l row.matching_search_ids p) _ _ refl h in
    (matches, seen_open row (w.active_seen row.telegram_id) rest)

pub context_open :
    (row : OutboxRow) (w : World) (p : Profile) (r : Result Listing)
    → LetsThrough (listing_or_invalid row w p r)
    → (l : Listing) × (r ≡ ok l) × LetsThrough (listing_eligibility row w p l)
context_open row w p (ok l) h = (l, refl, h)
context_open row w p (err e) h = absurd (refused _ refl h)

pub person_open :
    (row : OutboxRow) (w : World) (l : Ledger) (a : Allowlist) (person : AllowlistEntry)
    → LetsThrough (person_eligibility row w l a (some person))
    → (is_allowlisted a row.telegram_id ≡ true)
      × (is_immediate person.profile.delivery_mode ≡ true)
      × LetsThrough (listing_or_invalid row w person.profile (outbox_listing row.outbox_id l))
unfolding person_eligibility
person_open row w l a person h =
    let (allowed, rest) = passes (is_allowlisted a row.telegram_id) _ _ refl h in
    let (mode, valid) = passes (is_immediate person.profile.delivery_mode) _ _ refl rest in
    (allowed, mode, valid)

pub person_found :
    (row : OutboxRow) (w : World) (l : Ledger) (a : Allowlist) (o : Option AllowlistEntry)
    → LetsThrough (person_eligibility row w l a o)
    → (person : AllowlistEntry) × (o ≡ some person)
      × LetsThrough (person_eligibility row w l a (some person))
unfolding person_eligibility
person_found row w l a none h = absurd (refused _ refl h)
person_found row w l a (some person) h = (person, refl, h)

pub allowlist_found :
    (row : OutboxRow) (w : World) (l : Ledger) (r : Result Allowlist)
    → LetsThrough (allowlist_eligibility row w l r)
    → (a : Allowlist) × (r ≡ ok a)
      × LetsThrough (person_eligibility row w l a (get a row.telegram_id))
unfolding allowlist_eligibility
allowlist_found row w l (err e) (e', h, open_) = cc
allowlist_found row w l (ok a) h = (a, refl, h)

pub gate_open :
    (row : OutboxRow) (s : Settings) (w : World) (l : Ledger)
    → LetsThrough (eligibility row s w l)
    → (global_gate s ≡ none)
      × LetsThrough (
          if not (contains s.incremental_canary_telegram_ids row.telegram_id)
          then ok (temporary "recipient is not an incremental canary")
          else allowlist_eligibility row w l w.allowlist)
unfolding eligibility
gate_open row s w l h = elim (Option-cases (global_gate s)) [
  | inl e ↦ (e, rw (eligibility, e) at h)
  | inr (gate, e) ↦ absurd (refused (temporary gate) refl (rw (eligibility, e) at h))
]
