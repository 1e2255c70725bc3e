-- ===== src/Worker/Reached.antt =====
-- When a message goes out: the gates of `_eligibility` and of `_deliver_claimed` hold nothing else back.
use chc_rental.Base.{ℕ, [], ◌∷◌, ◌++◌, ◌≡◌, refl, true, false, none, arith, ltb}
use chc_rental.Base.Raise.{ok}
use chc_rental.Models.{Settings}
use chc_rental.Ledger.{Ledger, OutboxRow}
use chc_rental.Worker.{
  World, WorkerConfig, Work, Eligibility, global_gate, seen_eligibility, listing_eligibility,
  person_eligibility, allowlist_eligibility, eligibility, transport, deliver_person,
  deliver_allowed, deliver_eligible, deliver_judged, deliver_under, deliver_claimed,
}
use chc_rental.Worker.Passes.{MayReceive}
use chc_rental.Worker.Sends.{IsAwake, same_outcome}

gates_closed :
    (s : Settings)
    → s.live_push_enabled ≡ true
    → s.incremental_alerts_enabled ≡ true
    → s.zillow_enabled ≡ true
    → global_gate s ≡ none
unfolding global_gate
gates_closed s live incremental zillow = rw (live, incremental, zillow) refl

-- What `_eligibility` returns for a row that may go out.
abbrev through : Eligibility
through = record { eligible = true; permanent = false; reason = "eligible" }

eligibility-through :
    (row : OutboxRow) (s : Settings) (w : World) (l : Ledger)
    → MayReceive row s w l
    → eligibility row s w l ≡ ok through
unfolding eligibility allowlist_eligibility person_eligibility listing_eligibility seen_eligibility
eligibility-through row s w l m =
    rw
      (
        eligibility,
        gates_closed s m.live_push m.incremental m.zillow,
        m.canary,
        m.allowlist_read,
        allowlist_eligibility,
        m.found,
        person_eligibility,
        m.allowlisted,
        m.immediate,
        m.context,
        m.matches,
        m.seen_read,
        seen_eligibility,
        m.unseen,
      )
      refl

awake-sends :
    (c : WorkerConfig) (row : OutboxRow) (now : ℕ) (w : World) (k : Work)
    → IsAwake row now w w.allowlist_later
    → (deliver_allowed c row now w w.allowlist_later k).1.sends
      ≡ k.sends ++ (row.telegram_id, row.message_text) ∷ []
unfolding deliver_allowed deliver_person transport
awake-sends c row now w k (a, read, there) =
    let (person, found, awake) = there in
    let not_quiet : ltb now (w.not_before person.profile now) ≡ false = ground arith in
    rw (read, deliver_allowed, found, deliver_person, not_quiet)
      (same_outcome row now c (w.send row.telegram_id row.message_text) _)

-- The message of a claimed row is given to the sender if the settings could be read, every gate is
-- open by readings that returned, and the recipient is not in quiet hours by the second reading.
pub deliver_claimed-reaches :
    (c : WorkerConfig) (row : OutboxRow) (now : ℕ) (w : World) (k : Work) (s : Settings)
    → w.settings ≡ ok s
    → MayReceive row s w k.ledger
    → IsAwake row now w w.allowlist_later
    → (deliver_claimed c row now w k).1.sends ≡ k.sends ++ (row.telegram_id, row.message_text) ∷ []
unfolding deliver_claimed deliver_under deliver_judged deliver_eligible
deliver_claimed-reaches c row now w k s read may awake =
    rw (deliver_claimed, read, deliver_under, eligibility-through row s w k.ledger may)
      (awake-sends c row now w k awake)
