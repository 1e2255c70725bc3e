-- ===== src/Worker/Sends.antt =====
-- Who is sent a message: the gates of `_eligibility` and of `_deliver_claimed`, as what holds of the
-- settings, the allowlist, the listing and the clock whenever the sender is called.
use chc_rental.Base.{
  ℕ, ◌≤◌, String, ◌≡◌, refl, Bool, true, false, Option, none, some, [], ◌∷◌, ◌++◌, arith,
  Bool-cases, Option-cases, inl, inr, ◌⊎◌, ltb, if-keeps,
}
use chc_rental.Base.Raise.{Result, ok, err}
use chc_rental.Models.{get, Allowlist, AllowlistEntry, Listing, Settings}
use chc_rental.Ledger.{Ledger, OutboxRow, OutboxStatus}
use chc_rental.Ledger.Outbox.{contains, outbox_listing}
use chc_rental.Worker.{
  SendOutcome, accepted, send_error, unknown_error, World, WorkerConfig, Work, eligibility, gone,
  cancel_row_of, return_row_of, fail_row_of, is_last, on_send_error, on_accepted, on_outcome,
  transport, deliver_person, deliver_allowed, deliver_eligible, deliver_judged, deliver_under,
  deliver_claimed, Eligibility, marked, then_, counted,
}
use chc_rental.Worker.Passes.{
  MayReceive, LetsThrough, allowlist_found, context_open, gate_open, gates_open, listing_open,
  passes, person_found, person_open,
}

-- Every gate of `_eligibility` is open.
may_receive :
    (row : OutboxRow) (s : Settings) (w : World) (l : Ledger)
    → LetsThrough (eligibility row s w l)
    → MayReceive row s w l
may_receive row s w l h =
    let (open_, rest) = gate_open row s w l h in
    let (canary, rest') =
      passes (contains s.incremental_canary_telegram_ids row.telegram_id) _ _ refl rest in
    let (allowlist, read, there) = allowlist_found row w l w.allowlist rest' in
    let (person, found, here) =
      person_found row w l allowlist (get allowlist row.telegram_id) there in
    let (allowed, mode, valid) = person_open row w l allowlist person here in
    let (listing, context, fits) =
      context_open row w person.profile (outbox_listing row.outbox_id l) valid in
    let (matches, unlisted) = listing_open row w person.profile listing fits in
    let (seen, seen_read, unseen) = unlisted in
    let (live, incremental, zillow) = gates_open s open_ in
    record {
      live_push = live;
      incremental = incremental;
      zillow = zillow;
      canary = canary;
      allowlist = allowlist;
      allowlist_read = read;
      person = person;
      found = found;
      allowlisted = allowed;
      immediate = mode;
      listing = listing;
      context = context;
      matches = matches;
      seen = seen;
      seen_read = seen_read;
      unseen = unseen;
    }

-- By a reading of the allowlist the recipient is outside of quiet hours.
abbrev pub IsAwake : OutboxRow → ℕ → World → Result Allowlist → Type 0
IsAwake row now w r =
    (a : Allowlist) × (r ≡ ok a)
    × ((person : AllowlistEntry) × (get a row.telegram_id ≡ some person)
        × (w.not_before person.profile now ≤ now))

-- What a call did with the sender: nothing, or it gave it the message of the row, and the recipient
-- may have it by the settings that were read, and by the second reading of the allowlist is outside
-- of quiet hours too.
abbrev pub SendsOnly : OutboxRow → ℕ → World → Work → Work → Type 0
SendsOnly row now w k k' =
    (k'.sends ≡ k.sends)
    ⊎ ((k'.sends ≡ k.sends ++ (row.telegram_id, row.message_text) ∷ [])
        × ((s : Settings) × (w.settings ≡ ok s) × MayReceive row s w k.ledger)
        × IsAwake row now w w.allowlist_later)

module _ (row : OutboxRow) (now : ℕ) where
  same_cancel :
      (k : Work) (reason : String) → (cancel_row_of row.outbox_id reason k).sends ≡ k.sends
  unfolding cancel_row_of
  same_cancel k reason = refl

  same_gone : (k : Work) → (gone row k).sends ≡ k.sends
  unfolding gone
  same_gone k = refl

  same_then :
      (r : Result (Unit {0})) (k k' k'' : Work)
      → k'.sends ≡ k.sends
      → k''.sends ≡ k.sends
      → (then_ r k' k'').1.sends ≡ k.sends
  same_then (ok u) k k' k'' h h' = h'
  same_then (err e) k k' k'' h h' = h

  same_return :
      (k : Work) (reason : String) (t : Option ℕ)
      → (return_row_of row.outbox_id now reason t k).1.sends ≡ k.sends
  unfolding return_row_of
  same_return k reason t = same_then _ k _ _ refl refl

  same_counted :
      (r : Result OutboxStatus) (l : Ledger) (k : Work) → (counted r l k).1.sends ≡ k.sends
  same_counted (ok s) l k = refl
  same_counted (err e) l k = refl

  same_fail :
      (k : Work) (class message : String) (t : Option ℕ) (u : Bool)
      → (fail_row_of row now class message t u k).1.sends ≡ k.sends
  unfolding fail_row_of
  same_fail k class message t u = same_counted _ _ k

  same_marked : (r : Result Listing) (k : Work) → (marked row r k).sends ≡ k.sends
  same_marked (ok l) k = refl
  same_marked (err e) k = refl

  same_accepted :
      (k : Work) (message_id : Option String) → (on_accepted row now message_id k).1.sends ≡ k.sends
  unfolding on_accepted
  same_accepted k message_id = same_then _ k _ _ refl (same_marked _ _)

  same_error :
      (c : WorkerConfig) (ambiguous terminal : Bool) (retry_after : Option ℕ) (message : String)
      (k : Work)
      → (on_send_error c row now ambiguous terminal retry_after message k).1.sends ≡ k.sends
  unfolding on_send_error
  same_error c true terminal retry_after message k = same_fail k _ message none true
  same_error c false terminal retry_after message k =
      if-keeps (λ (r : Result (Unit {0}) × Work). r.1.sends ≡ k.sends) (is_last c row terminal) _ _
        (same_fail k _ message none false) (same_fail k _ message _ false)

  pub same_outcome :
      (c : WorkerConfig) (outcome : SendOutcome) (k : Work)
      → (on_outcome c row now outcome k).1.sends ≡ k.sends
  same_outcome c (accepted message_id) k = same_accepted k message_id
  same_outcome c (send_error ambiguous terminal retry_after message) k =
      same_error c ambiguous terminal retry_after message k
  same_outcome c (unknown_error message) k = same_fail k _ message none true

-- The message of the row was not sent, or was, to a recipient who is awake.
abbrev SendsAwake : OutboxRow → ℕ → World → Result Allowlist → Work → Work → Type 0
SendsAwake row now w r k k' =
    (k'.sends ≡ k.sends)
    ⊎ ((k'.sends ≡ k.sends ++ (row.telegram_id, row.message_text) ∷ []) × IsAwake row now w r)

allowed-sends :
    (c : WorkerConfig) (row : OutboxRow) (now : ℕ) (w : World) (r : Result Allowlist) (k : Work)
    → SendsAwake row now w r k (deliver_allowed c row now w r k).1
unfolding deliver_allowed deliver_person
allowed-sends c row now w (err e) k = inl refl
allowed-sends c row now w (ok a) k = elim (Option-cases (get a row.telegram_id)) [
  | inl e ↦ rw (e, deliver_allowed) (inl (same_gone row now k))
  | inr (person, e) ↦ elim (Bool-cases (ltb now (w.not_before person.profile now))) [
    | inl quiet ↦ rw (e, deliver_allowed, quiet) (inl (same_return row now k _ _))
    | inr awake ↦
        rw (e, deliver_allowed, awake)
          (inr (
            unfold transport in same_outcome row now c (w.send row.telegram_id row.message_text) _,
            (a, refl, (person, e, ground arith)),
          ))
  ]
]

eligible-sends :
    (c : WorkerConfig) (row : OutboxRow) (now : ℕ) (w : World) (s : Settings) (e : Eligibility)
    (k : Work)
    → w.settings ≡ ok s
    → eligibility row s w k.ledger ≡ ok e
    → SendsOnly row now w k (deliver_eligible c row now w e k).1
unfolding deliver_eligible
eligible-sends c row now w s e k read judged = elim (Bool-cases e.eligible) [
  | inl may ↦ rw may (elim (allowed-sends c row now w w.allowlist_later k) [
    | inl same ↦ inl same
    | inr (more, awake) ↦
        inr (more, (s, read, may_receive row s w k.ledger (e, judged, may)), awake)
  ])
  | inr not_ ↦ rw not_ (
      inl (
        if-keeps (λ (r : Result (Unit {0}) × Work). r.1.sends ≡ k.sends) e.permanent
          (ok tt, cancel_row_of row.outbox_id e.reason k)
          (return_row_of row.outbox_id now e.reason none k) (same_cancel row now k e.reason)
          (same_return row now k e.reason none)))
]

judged-sends :
    (c : WorkerConfig) (row : OutboxRow) (now : ℕ) (w : World) (s : Settings)
    (r : Result Eligibility) (k : Work)
    → w.settings ≡ ok s
    → eligibility row s w k.ledger ≡ r
    → SendsOnly row now w k (deliver_judged c row now w r k).1
unfolding deliver_judged
judged-sends c row now w s (err e) k read judged = inl refl
judged-sends c row now w s (ok e) k read judged = eligible-sends c row now w s e k read judged

under-sends :
    (c : WorkerConfig) (row : OutboxRow) (now : ℕ) (w : World) (r : Result Settings) (k : Work)
    → w.settings ≡ r
    → SendsOnly row now w k (deliver_under c row now w r k).1
unfolding deliver_under
under-sends c row now w (err e) k read = inl refl
under-sends c row now w (ok s) k read =
    judged-sends c row now w s (eligibility row s w k.ledger) k read refl

-- The sender is called once at most for a claimed row, with the recipient and the text of that row,
-- and only while every gate is open: the three switches are on, the recipient is a canary, is active
-- on the allowlist in immediate mode, has an active search of the row that matches the listing and
-- has not seen it, and is not in quiet hours; each by a reading of the store that returned.
pub deliver_claimed-sends :
    (c : WorkerConfig) (row : OutboxRow) (now : ℕ) (w : World) (k : Work)
    → SendsOnly row now w k (deliver_claimed c row now w k).1
unfolding deliver_claimed
deliver_claimed-sends c row now w k = under-sends c row now w w.settings k refl
