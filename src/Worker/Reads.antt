-- ===== src/Worker/Reads.antt =====
-- The readings of the store that `_eligibility` and `_deliver_claimed` make, when one of them raises.
use chc_rental.Base.{
  String, List, ◌≡◌, refl, Bool, true, false, not, Option, none, some, Option-cases, inl, inr,
  if◌then◌else◌,
}
use chc_rental.Base.Raise.{Error, Result, ok, err}
use chc_rental.Models.{get, is_allowlisted, Allowlist, AllowlistEntry, Profile, Listing, Settings}
use chc_rental.Ledger.{Ledger, OutboxRow}
use chc_rental.Ledger.Outbox.{contains, outbox_listing}
use chc_rental.Worker.{
  World, Eligibility, global_gate, still_matches, listed, is_immediate, seen_eligibility,
  listing_eligibility, listing_or_invalid, person_eligibility, allowlist_eligibility, eligibility,
  permanent_,
}

-- While the row is delivered, one of the readings raises this exception: that of the settings, of the
-- allowlist, of the seen keys of the recipient, or the second one of the allowlist.
pub data RowFails (row : OutboxRow) (w : World) (e : Error) : Type 0 where
  settings_fail : w.settings ≡ err e → RowFails row w e
  allowlist_fails : w.allowlist ≡ err e → RowFails row w e
  active_seen_fails : w.active_seen row.telegram_id ≡ err e → RowFails row w e
  allowlist_later_fails : w.allowlist_later ≡ err e → RowFails row w e

raises_else :
    (c : Bool) (e : Eligibility) (r : Result Eligibility) (x : Error)
    → (if not c then ok e else r) ≡ err x
    → r ≡ err x
raises_else true e r x h = h
raises_else false e r x h = cc

module _ (row : OutboxRow) (w : World) (x : Error) where
  seen_raises : (r : Result (List String)) → seen_eligibility row r ≡ err x → r ≡ err x
  unfolding seen_eligibility
  seen_raises (err e) h = cc
  seen_raises (ok seen) h = elim_listed (listed row.identity_key seen) h
    where
      elim_listed :
          (b : Bool)
          → (if b
              then ok (permanent_ "listing was already sent by the daily path")
              else ok (record { eligible = true; permanent = false; reason = "eligible" }))
            ≡ err x
          → ok seen ≡ err x
      elim_listed true h' = cc
      elim_listed false h' = cc

  listing_raises :
      (p : Profile) (l : Listing)
      → listing_eligibility row w p l ≡ err x
      → w.active_seen row.telegram_id ≡ err x
  unfolding listing_eligibility
  listing_raises p l h =
      seen_raises (w.active_seen row.telegram_id)
        (raises_else (still_matches l row.matching_search_ids p) _ _ x h)

  context_raises :
      (p : Profile) (r : Result Listing)
      → listing_or_invalid row w p r ≡ err x
      → w.active_seen row.telegram_id ≡ err x
  context_raises p (ok l) h = listing_raises p l h
  context_raises p (err e) h = cc

  person_raises :
      (l : Ledger) (a : Allowlist) (o : Option AllowlistEntry)
      → person_eligibility row w l a o ≡ err x
      → w.active_seen row.telegram_id ≡ err x
  unfolding person_eligibility
  person_raises l a none h = cc
  person_raises l a (some person) h =
      context_raises person.profile (outbox_listing row.outbox_id l) (
        raises_else (is_immediate person.profile.delivery_mode) _ _ x
          (raises_else (is_allowlisted a row.telegram_id) _ _ x h))

  allowlist_raises :
      (l : Ledger) (r : Result Allowlist)
      → w.allowlist ≡ r
      → allowlist_eligibility row w l r ≡ err x
      → RowFails row w x
  unfolding allowlist_eligibility
  allowlist_raises l (err e) same h = allowlist_fails cc
  allowlist_raises l (ok a) same h = active_seen_fails (person_raises l a (get a row.telegram_id) h)

  -- What `_eligibility` raises was raised by one of its readings.
  pub eligibility-RowFails :
      (s : Settings) (l : Ledger) → eligibility row s w l ≡ err x → RowFails row w x
  unfolding eligibility
  eligibility-RowFails s l h = elim (Option-cases (global_gate s)) [
    | inr (gate, e) ↦ let bad = rw (eligibility, e) at h in cc
    | inl e ↦ allowlist_raises l w.allowlist refl (
        raises_else (contains s.incremental_canary_telegram_ids row.telegram_id) _ _ x
          (rw (eligibility, e) at h))
  ]
