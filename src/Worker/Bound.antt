-- ===== src/Worker/Bound.antt =====
-- How many messages a pass of the worker sends.
use chc_rental.Base.{
  ℕ, suc, ◌+◌, ◌≤◌, ◌≡◌, refl, Bool, true, false, Option, none, some, List, [], ◌∷◌, arith,
  Option-cases, inl, inr, is_none, length, length-append, if◌then◌else◌, if-keeps,
}
use chc_rental.Base.Table.{rows_where}
use chc_rental.Base.Raise.{Result, ok, err}
use chc_rental.Models.{Settings}
use chc_rental.Ledger.{Ledger, OutboxRow, pending}
use chc_rental.Ledger.Outbox.{claim_due_outbox, outbox_records}
use chc_rental.Worker.{
  World, WorkerConfig, Work, Eligibility, global_gate, eligibility, targets, cancel_row_of,
  deliver_claimed, unless_raised,
}
use chc_rental.Worker.Due.{
  claimed_turn, turn, go_on, turns, is_asked, cancel_if_permanent, cancel_invalid, recover,
  deliver_targets, if_read, deliver_to, due_under, deliver_due,
}
use chc_rental.Worker.Sends.{SendsOnly, deliver_claimed-sends}

-- At most `n` messages were given to the sender between the two.
abbrev pub SendsUpTo : ℕ → Work → Work → Type 0
SendsUpTo n k k' = length k'.sends ≤ length k.sends + n

one_send :
    (row : OutboxRow) (now : ℕ) (w : World) (k k' : Work)
    → SendsOnly row now w k k'
    → SendsUpTo 1 k k'
one_send row now w k k' (inl same) = rw same (omega arith)
one_send row now w k k' (inr (more, may, awake)) =
    rw more (omega (arith, length-append k.sends ((row.telegram_id, row.message_text) ∷ [])))

go_on-sends :
    (n : ℕ) (t : Bool × Result (Unit {0}) × Work) (rest : Work → Result (Unit {0}) × Work)
    (k : Work)
    → SendsUpTo 1 k t.2
    → ((k' : Work) → SendsUpTo n k' (rest k').1)
    → SendsUpTo (suc n) k (go_on t rest).1
go_on-sends n (false, r, k') rest k h more = omega arith
go_on-sends n (true, err e, k') rest k h more = omega arith
go_on-sends n (true, ok u, k') rest k h more = let m = more k' in omega arith

module _ (c : WorkerConfig) (now : ℕ) (ids : List ℕ) (selected : Option ℕ) where
  claimed_turn-sends :
      (w : World) (k : Work) (p : Option OutboxRow × Ledger)
      → SendsUpTo 1 k (claimed_turn c now w p k).2
  unfolding claimed_turn
  claimed_turn-sends w k (none, l) = omega arith
  claimed_turn-sends w k (some row, l) =
      let k' = record k { ledger = l } in
      one_send row now w k' (deliver_claimed c row now w k').1
        (deliver_claimed-sends c row now w k')

  turns-sends :
      (worlds : List World) (k : Work)
      → SendsUpTo (length worlds) k (turns c now ids selected worlds k).1
  unfolding turns turn
  turns-sends [] k = omega arith
  turns-sends (w ∷ worlds) k =
      go_on-sends (length worlds) (turn c now ids selected w k) (turns c now ids selected worlds) k
        (claimed_turn-sends w k (claim_due_outbox now ids selected k.ledger)) (turns-sends worlds)

cancel_if-sends :
    (row : OutboxRow) (r : Result Eligibility) (k : Work)
    → (cancel_if_permanent row r k).1.sends ≡ k.sends
unfolding cancel_if_permanent cancel_row_of
cancel_if-sends row (err e) k = refl
cancel_if-sends row (ok e) k =
    if-keeps (λ (x : Result (Unit {0}) × Work). x.1.sends ≡ k.sends) e.permanent _ _ refl refl

unless_raised-sends :
    (n : ℕ) (t : Result (Unit {0}) × Work) (rest : Work → Result (Unit {0}) × Work) (k : Work)
    → SendsUpTo 0 k t.1
    → ((k' : Work) → SendsUpTo n k' (rest k').1)
    → SendsUpTo n k (unless_raised t rest).1
unless_raised-sends n (err e, k') rest k h more = omega arith
unless_raised-sends n (ok u, k') rest k h more = let after = more k' in omega arith

same-sends : (k k' : Work) → k'.sends ≡ k.sends → SendsUpTo 0 k k'
same-sends k k' same = rw same (omega arith)

cancel_invalid-sends :
    (s : Settings) (before : OutboxRow → World) (rows : List OutboxRow) (k : Work)
    → SendsUpTo 0 k (cancel_invalid s before rows k).1
unfolding cancel_invalid
cancel_invalid-sends s before [] k = omega arith
cancel_invalid-sends s before (row ∷ rows) k =
    unless_raised-sends 0 (cancel_if_permanent row (eligibility row s (before row) k.ledger) k)
      (cancel_invalid s before rows) k
      (same-sends k (cancel_if_permanent row (eligibility row s (before row) k.ledger) k).1
        (cancel_if-sends row (eligibility row s (before row) k.ledger) k))
      (cancel_invalid-sends s before rows)

module _ (c : WorkerConfig) (now stale_before : ℕ) (selected : Option ℕ) where
  targets-sends :
      (ids : List ℕ) (s : Settings) (before : OutboxRow → World) (worlds : List World) (k : Work)
      → SendsUpTo
          (length worlds)
          k
          (deliver_targets c now stale_before ids selected s before worlds k).1
  unfolding deliver_targets recover
  targets-sends ids s before worlds k =
      let k₁ = recover now stale_before ids k in
      let rows = rows_where (is_asked now ids selected) (outbox_records (some pending) k₁.ledger) in
      unless_raised-sends (length worlds) (cancel_invalid s before rows k₁)
        (turns c now ids selected worlds) k (cancel_invalid-sends s before rows k₁)
        (turns-sends c now ids selected worlds)

  if_read-sends : (r : Result Settings) (k : Work) → SendsUpTo 0 k (if_read r k).1
  if_read-sends (ok s) k = omega arith
  if_read-sends (err e) k = omega arith

  -- How many messages a pass may send under the settings `s`.
  abbrev room : Settings → List World → ℕ
  room s worlds = if is_none (global_gate s) then length worlds else 0

  to-sends :
      (s : Settings) (w : World) (before : OutboxRow → World) (worlds : List World)
      (r : Result (List ℕ)) (k : Work)
      → SendsUpTo (room s worlds) k (deliver_to c now stale_before selected s w before worlds r k).1
  unfolding deliver_to
  to-sends s w before worlds (err e) k = omega arith
  to-sends s w before worlds (ok ids) k = elim (Option-cases (global_gate s)) [
    | inr (gate, e) ↦ rw (e, deliver_to) (omega arith)
    | inl e ↦
        rw (e, deliver_to)
          (unless_raised-sends (length worlds) (if_read w.settings_later k)
            (deliver_targets c now stale_before ids selected s before worlds) k
            (if_read-sends w.settings_later k) (targets-sends ids s before worlds))
  ]

-- How many messages a pass may send by its reading of the settings: none if that raises, and none
-- while the global gate is closed.
abbrev pub allowance : Result Settings → List World → ℕ
allowance (err e) worlds = 0
allowance (ok s) worlds = if is_none (global_gate s) then length worlds else 0

under-sends :
    (c : WorkerConfig) (now stale_before : ℕ) (requested : Option (List ℕ)) (selected : Option ℕ)
    (w : World) (before : OutboxRow → World) (worlds : List World) (r : Result Settings) (k : Work)
    → SendsUpTo
        (allowance r worlds)
        k
        (due_under c now stale_before requested selected w before worlds r k).1
unfolding due_under
under-sends c now stale_before requested selected w before worlds (err e) k = omega arith
under-sends c now stale_before requested selected w before worlds (ok s) k =
    to-sends c now stale_before selected s w before worlds (targets s requested) k

-- A pass of the worker, whether it returns or raises, gives the sender no more messages than it may
-- have turns (`max_messages`), and none while the global gate is closed or if the settings cannot be
-- read.
pub deliver_due-sends :
    (c : WorkerConfig) (now stale_before : ℕ) (requested : Option (List ℕ)) (selected : Option ℕ)
    (w : World) (before : OutboxRow → World) (worlds : List World) (k : Work)
    → SendsUpTo
        (allowance w.settings worlds)
        k
        (deliver_due c now stale_before requested selected w before worlds k).1
unfolding deliver_due
deliver_due-sends c now stale_before requested selected w before worlds k =
    under-sends c now stale_before requested selected w before worlds w.settings k
