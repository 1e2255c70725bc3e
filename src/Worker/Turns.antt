-- ===== src/Worker/Turns.antt =====
-- `deliver_due` as a whole: its calls on the ledger, and what it raises.
use mathlib.Core.Path.{subst}
use chc_rental.Base.{
  ℕ, ◌≡◌, refl, sym, ap, ◌∙◌, Bool, true, false, Option, none, some, List, [], ◌∷◌, ◌++◌,
  Option-cases, Bool-cases, if-keeps, inl, inr, ◌⊎◌,
}
use chc_rental.Base.Table.{count_where, find_where, rows_where}
use chc_rental.Base.Table.Distinct.{Distinct}
use chc_rental.Base.Raise.{Error, value, Result, ok, err}
use chc_rental.Models.{Settings}
use chc_rental.Ledger.{Ledger, OutboxRow, sending, pending}
use chc_rental.Ledger.Outbox.{has_id, id_and_status, claim_row, claim_due_outbox, outbox_records}
use chc_rental.Ledger.Outbox.Steps.{Op, claim_due, release_due, recover_stale, step, steps}
use chc_rental.Ledger.Outbox.Receipts.{step-IsValid, steps-IsValid}
use chc_rental.Ledger.Outbox.Valid.{same_id, IsValid}
use chc_rental.Ledger.Outbox.Claim.{Claims, claim_due_outbox-Claims, count_one}
use chc_rental.Worker.{
  World, WorkerConfig, Work, Eligibility, global_gate, eligibility, targets, all_in, cancel_row_of,
  deliver_claimed, unless_raised,
}
use chc_rental.Worker.Due.{
  claimed_turn, turn, go_on, turns, is_asked, cancel_if_permanent, cancel_invalid, recover,
  deliver_targets, if_read, deliver_to, due_under, deliver_due,
}
use chc_rental.Worker.Reads.{RowFails, eligibility-RowFails}
use chc_rental.Worker.Steps.{OneStep, MaxOneStep, cancel-OneStep, deliver_claimed-MaxOneStep}
use chc_rental.Worker.Settled.{deliver_claimed-Settles}

-- The ledger after it is that of a sequence of outbox calls.
abbrev pub Steps : Ledger → Work → Type 0
Steps l k = (ops : List Op) × (k.ledger ≡ steps ops l)

steps-append : (ops ops' : List Op) (l : Ledger) → steps (ops ++ ops') l ≡ steps ops' (steps ops l)
unfolding steps
steps-append [] ops' l = refl
steps-append (op ∷ ops) ops' l = steps-append ops ops' (step op l)

then_Steps : (l : Ledger) (k k' : Work) → Steps l k → Steps k.ledger k' → Steps l k'
then_Steps l k k' (ops, e) (ops', e') = (ops ++ ops', e' ∙ rw (e, steps-append ops ops' l) refl)

one_Steps : (l : Ledger) (k : Work) → OneStep l k → Steps l k
unfolding steps
one_Steps l k (op, e) = (op ∷ [], e)

max_one_Steps : (l : Ledger) (k : Work) → MaxOneStep l k → Steps l k
unfolding steps
max_one_Steps l k (inl same) = ([], same)
max_one_Steps l k (inr one) = one_Steps l k one

none_Steps : (k : Work) → Steps k.ledger k
unfolding steps
none_Steps k = ([], refl)

go_on-Steps :
    (t : Bool × Result (Unit {0}) × Work) (rest : Work → Result (Unit {0}) × Work) (l : Ledger)
    → Steps l t.2
    → ((k : Work) → Steps k.ledger (rest k).1)
    → Steps l (go_on t rest).1
go_on-Steps (false, r, k) rest l h more = h
go_on-Steps (true, err e, k) rest l h more = h
go_on-Steps (true, ok u, k) rest l h more = then_Steps l k (rest k).1 h (more k)

module _ (c : WorkerConfig) (now : ℕ) (ids : List ℕ) (selected : Option ℕ) where
  claimed_turn-Steps :
      (w : World) (k : Work) (p : Option OutboxRow × Ledger)
      → p.1 ≡ step (claim_due now ids selected) k.ledger
      → Steps k.ledger (claimed_turn c now w p k).2
  unfolding claimed_turn
  claimed_turn-Steps w k (none, l) e =
      one_Steps k.ledger (record k { ledger = l }) (claim_due now ids selected, e)
  claimed_turn-Steps w k (some row, l) e =
      let k' = record k { ledger = l } in
      let k'' = (deliver_claimed c row now w k').1 in
      then_Steps k.ledger k' k'' (one_Steps k.ledger k' (claim_due now ids selected, e))
        (max_one_Steps l k'' (deliver_claimed-MaxOneStep c row now w k'))

  turn-Steps : (w : World) (k : Work) → Steps k.ledger (turn c now ids selected w k).2
  unfolding turn
  turn-Steps w k =
      claimed_turn-Steps w k (claim_due_outbox now ids selected k.ledger) (unfold step in refl)

  turns-Steps :
      (worlds : List World) (k : Work) → Steps k.ledger (turns c now ids selected worlds k).1
  unfolding turns
  turns-Steps [] k = none_Steps k
  turns-Steps (w ∷ worlds) k =
      go_on-Steps (turn c now ids selected w k) (turns c now ids selected worlds) k.ledger
        (turn-Steps w k) (turns-Steps worlds)

cancel_if-Steps :
    (row : OutboxRow) (r : Result Eligibility) (k : Work)
    → Steps k.ledger (cancel_if_permanent row r k).1
unfolding cancel_if_permanent
cancel_if-Steps row (err e) k = none_Steps k
cancel_if-Steps row (ok e) k =
    let k' = cancel_row_of row.outbox_id e.reason k in
    if-keeps (λ (r : Result (Unit {0}) × Work). Steps k.ledger r.1) e.permanent (ok tt, k')
      (ok tt, k) (one_Steps k.ledger k' (cancel-OneStep row 0 k e.reason)) (none_Steps k)

unless_raised-Steps :
    (t : Result (Unit {0}) × Work) (rest : Work → Result (Unit {0}) × Work) (l : Ledger)
    → Steps l t.1
    → ((k : Work) → Steps k.ledger (rest k).1)
    → Steps l (unless_raised t rest).1
unless_raised-Steps (err e, k) rest l h more = h
unless_raised-Steps (ok u, k) rest l h more = then_Steps l k (rest k).1 h (more k)

cancel_invalid-Steps :
    (s : Settings) (before : OutboxRow → World) (rows : List OutboxRow) (k : Work)
    → Steps k.ledger (cancel_invalid s before rows k).1
unfolding cancel_invalid
cancel_invalid-Steps s before [] k = none_Steps k
cancel_invalid-Steps s before (row ∷ rows) k =
    unless_raised-Steps (cancel_if_permanent row (eligibility row s (before row) k.ledger) k)
      (cancel_invalid s before rows) k.ledger
      (cancel_if-Steps row (eligibility row s (before row) k.ledger) k)
      (cancel_invalid-Steps s before rows)

recover-Steps :
    (now stale_before : ℕ) (ids : List ℕ) (k : Work)
    → Steps k.ledger (recover now stale_before ids k)
unfolding recover steps step
recover-Steps now stale_before ids k =
    (recover_stale now stale_before ids ∷ release_due now ids ∷ [], refl)

Steps-IsValid : (l : Ledger) (k : Work) → Steps l k → IsValid l → IsValid k.ledger
Steps-IsValid l k (ops, e) h = rw e (steps-IsValid ops l h)

claimed_one :
    (now : ℕ) (r row : OutboxRow) (l : Ledger)
    → row ≡ claim_row now r
    → find_where (has_id r.outbox_id) l.outbox ≡ some row
    → Distinct same_id l.outbox
    → count_where (id_and_status row.outbox_id sending) l.outbox ≡ 1
claimed_one now r row l same there unique =
    let id : row.outbox_id ≡ r.outbox_id = ap (λ x. x.outbox_id) same in
    let status : row.status ≡ sending = ap (λ x. x.status) same in
    let at_row : find_where (has_id row.outbox_id) l.outbox ≡ some row =
      subst (λ n. find_where (has_id n) l.outbox ≡ some row) (sym id) there in
    subst (λ s. count_where (id_and_status row.outbox_id s) l.outbox ≡ 1) status
      (count_one row l.outbox unique at_row)

-- A row is claimed in one of these worlds and a reading for it raises `e`.
abbrev pub AnyFails : Error → List World → Type 0
AnyFails e [] = ⊥
AnyFails e (w ∷ worlds) = ((row : OutboxRow) × RowFails row w e) ⊎ AnyFails e worlds

-- The requested ids are not all canaries.
abbrev pub IsOutside : Settings → Option (List ℕ) → Type 0
IsOutside s none = ⊥
IsOutside s (some ids) = all_in ids s.incremental_canary_telegram_ids ≡ false

-- Why a pass may raise `e`: a reading of the settings did at the start or, for a row, one of the
-- store did before the loop or in one of its turns; or it is `ValueError` and the request is not for canaries.
pub data Raises (requested : Option (List ℕ)) (w : World) (before : OutboxRow → World)
    (worlds : List World) (e : Error) : Type 0 where
  settings_raise : w.settings ≡ err e → Raises requested w before worlds e
  settings_later_raise : w.settings_later ≡ err e → Raises requested w before worlds e
  not_canaries :
      (s : Settings)
      → w.settings ≡ ok s
      → IsOutside s requested
      → e ≡ value
      → Raises requested w before worlds e
  pending_raises :
      (row : OutboxRow) → RowFails row (before row) e → Raises requested w before worlds e
  turn_raises : AnyFails e worlds → Raises requested w before worlds e

-- The call returned, or raised for a reason of these.
abbrev pub OkOr : (Error → Type 0) → Result (Unit {0}) → Type 0
OkOr P r = (r ≡ ok tt) ⊎ ((e : Error) × (r ≡ err e) × P e)

OkOr-map :
    (P Q : Error → Type 0) (r : Result (Unit {0})) → ((e : Error) → P e → Q e) → OkOr P r → OkOr Q r
OkOr-map P Q r f (inl h) = inl h
OkOr-map P Q r f (inr (e, h, p)) = inr (e, h, f e p)

go_on-OkOr :
    (P : Error → Type 0) (t : Bool × Result (Unit {0}) × Work)
    (rest : Work → Result (Unit {0}) × Work)
    → OkOr P t.1
    → ((k : Work) → k ≡ t.2 → OkOr P (rest k).0)
    → OkOr P (go_on t rest).0
go_on-OkOr P (false, r, k) rest h more = h
go_on-OkOr P (true, err e, k) rest h more = h
go_on-OkOr P (true, ok u, k) rest h more = more k refl

unless_raised-OkOr :
    (P : Error → Type 0) (t : Result (Unit {0}) × Work) (rest : Work → Result (Unit {0}) × Work)
    → OkOr P t.0
    → ((k : Work) → k ≡ t.1 → OkOr P (rest k).0)
    → OkOr P (unless_raised t rest).0
unless_raised-OkOr P (err e, k) rest h more = h
unless_raised-OkOr P (ok u, k) rest h more = more k refl

module _ (c : WorkerConfig) (now : ℕ) (ids : List ℕ) (selected : Option ℕ) where
  claimed_turn-OkOr :
      (w : World) (k : Work) (p : Option OutboxRow × Ledger)
      → Claims now ids selected k.ledger p
      → IsValid p.1
      → OkOr (λ e. (row : OutboxRow) × RowFails row w e) (claimed_turn c now w p k).1
  unfolding claimed_turn
  claimed_turn-OkOr w k (none, l) claims h = inl refl
  claimed_turn-OkOr w k (some row, l) claims h =
      let (r, found, due, first, same, there, others, receipts) = claims in
      let one = claimed_one now r row l same there h.unique_ids in
      elim (deliver_claimed-Settles c row now w (record k { ledger = l }) h one) [
        | inl settled ↦ inl (settled.0)
        | inr (e, fails, raised) ↦ inr (e, ap (λ x. x.0) raised, (row, fails))
      ]

  turn-OkOr :
      (w : World) (k : Work)
      → IsValid k.ledger
      → OkOr (λ e. (row : OutboxRow) × RowFails row w e) (turn c now ids selected w k).1
  unfolding turn
  turn-OkOr w k h =
      claimed_turn-OkOr w k (claim_due_outbox now ids selected k.ledger)
        (claim_due_outbox-Claims now ids selected k.ledger h)
        (unfold step in step-IsValid (claim_due now ids selected) k.ledger h)

  turns-OkOr :
      (worlds : List World) (k : Work)
      → IsValid k.ledger
      → OkOr (λ e. AnyFails e worlds) (turns c now ids selected worlds k).0
  unfolding turns
  turns-OkOr [] k h = inl refl
  turns-OkOr (w ∷ worlds) k h =
      go_on-OkOr (λ e. AnyFails e (w ∷ worlds)) (turn c now ids selected w k)
        (turns c now ids selected worlds)
        (OkOr-map (λ e. (row : OutboxRow) × RowFails row w e) (λ e. AnyFails e (w ∷ worlds)) _
          (λ e. inl) (turn-OkOr w k h))
        (λ k' e.
          OkOr-map (λ x. AnyFails x worlds) (λ x. AnyFails x (w ∷ worlds)) _ (λ x. inr)
            (turns-OkOr worlds k' (
              subst (λ x. IsValid x.ledger) (sym e)
                (Steps-IsValid k.ledger (turn c now ids selected w k).2
                  (turn-Steps c now ids selected w k) h))))

cancel_if-OkOr :
    (row : OutboxRow) (s : Settings) (before : OutboxRow → World) (l : Ledger)
    (r : Result Eligibility) (k : Work)
    → eligibility row s (before row) l ≡ r
    → OkOr (λ e. (row' : OutboxRow) × RowFails row' (before row') e) (cancel_if_permanent row r k).0
unfolding cancel_if_permanent
cancel_if-OkOr row s before l (err e) k judged =
    inr (e, refl, (row, eligibility-RowFails row (before row) e s l judged))
cancel_if-OkOr row s before l (ok e) k judged =
    if-keeps
      (λ (r : Result (Unit {0}) × Work).
        OkOr (λ x. (row' : OutboxRow) × RowFails row' (before row') x) r.0)
      e.permanent _ _ (inl refl) (inl refl)

cancel_invalid-OkOr :
    (s : Settings) (before : OutboxRow → World) (rows : List OutboxRow) (k : Work)
    → OkOr (λ e. (row : OutboxRow) × RowFails row (before row) e) (cancel_invalid s before rows k).0
unfolding cancel_invalid
cancel_invalid-OkOr s before [] k = inl refl
cancel_invalid-OkOr s before (row ∷ rows) k =
    unless_raised-OkOr (λ e. (row' : OutboxRow) × RowFails row' (before row') e)
      (cancel_if_permanent row (eligibility row s (before row) k.ledger) k)
      (cancel_invalid s before rows)
      (cancel_if-OkOr row s before k.ledger (eligibility row s (before row) k.ledger) k refl)
      (λ k' same. cancel_invalid-OkOr s before rows k')

module _ (c : WorkerConfig) (now stale_before : ℕ) (requested : Option (List ℕ))
    (selected : Option ℕ) (w : World) (before : OutboxRow → World) (worlds : List World) where
  targets-OkOr :
      (ids : List ℕ) (s : Settings) (k : Work)
      → IsValid k.ledger
      → OkOr
          (Raises requested w before worlds)
          (deliver_targets c now stale_before ids selected s before worlds k).0
  unfolding deliver_targets
  targets-OkOr ids s k h =
      let k₁ = recover now stale_before ids k in
      let rows = rows_where (is_asked now ids selected) (outbox_records (some pending) k₁.ledger) in
      let h₁ = Steps-IsValid k.ledger k₁ (recover-Steps now stale_before ids k) h in
      unless_raised-OkOr (Raises requested w before worlds) (cancel_invalid s before rows k₁)
        (turns c now ids selected worlds)
        (OkOr-map (λ e. (row : OutboxRow) × RowFails row (before row) e)
          (Raises requested w before worlds) _ (λ e fails. pending_raises fails.0 fails.1)
          (cancel_invalid-OkOr s before rows k₁))
        (λ k₂ same.
          OkOr-map (λ e. AnyFails e worlds) (Raises requested w before worlds) _
            (λ e fails. turn_raises fails)
            (turns-OkOr c now ids selected worlds k₂ (
              subst (λ x. IsValid x.ledger) (sym same)
                (Steps-IsValid k₁.ledger (cancel_invalid s before rows k₁).1
                  (cancel_invalid-Steps s before rows k₁) h₁))))

  if_read-OkOr :
      (r : Result Settings) (k : Work)
      → w.settings_later ≡ r
      → OkOr (Raises requested w before worlds) (if_read r k).0
  if_read-OkOr (ok s) k read = inl refl
  if_read-OkOr (err e) k read = inr (e, refl, settings_later_raise read)

  if_read-same : (r : Result Settings) (k : Work) → (if_read r k).1 ≡ k
  if_read-same (ok s) k = refl
  if_read-same (err e) k = refl

  outside :
      (s : Settings) (o : Option (List ℕ)) (e : Error)
      → targets s o ≡ err e
      → IsOutside s o × (e ≡ value)
  unfolding targets
  outside s none e h = cc
  outside s (some ids) e h = elim (Bool-cases (all_in ids s.incremental_canary_telegram_ids)) [
    | inl yes_ ↦ let bad = rw yes_ at h in cc
    | inr no_ ↦ let same = rw no_ at h in (no_, cc)
  ]

  to-OkOr :
      (s : Settings) (r : Result (List ℕ)) (k : Work)
      → w.settings ≡ ok s
      → targets s requested ≡ r
      → IsValid k.ledger
      → OkOr
          (Raises requested w before worlds)
          (deliver_to c now stale_before selected s w before worlds r k).0
  unfolding deliver_to
  to-OkOr s (err e) k read asked h =
      let (out, same) = outside s requested e asked in inr (e, refl, not_canaries s read out same)
  to-OkOr s (ok ids) k read asked h = elim (Option-cases (global_gate s)) [
    | inr (gate, e) ↦ rw (e, deliver_to) (inl refl)
    | inl e ↦
        rw (e, deliver_to)
          (unless_raised-OkOr (Raises requested w before worlds) (if_read w.settings_later k)
            (deliver_targets c now stale_before ids selected s before worlds)
            (if_read-OkOr w.settings_later k refl)
            (λ k' same.
              targets-OkOr ids s k'
                (subst (λ x. IsValid x.ledger) (sym (same ∙ if_read-same w.settings_later k)) h)))
  ]

  under-OkOr :
      (r : Result Settings) (k : Work)
      → w.settings ≡ r
      → IsValid k.ledger
      → OkOr
          (Raises requested w before worlds)
          (due_under c now stale_before requested selected w before worlds r k).0
  unfolding due_under
  under-OkOr (err e) k read h = inr (e, refl, settings_raise read)
  under-OkOr (ok s) k read h = to-OkOr s (targets s requested) k read refl h

-- In a valid ledger a pass of the worker returns, or raises for one of these reasons: a reading of the
-- settings, the allowlist or the seen keys raised the same; or the requested ids are not all canaries
-- of the settings, and it is `ValueError`. No call on the ledger raises, and nothing else does.
pub deliver_due-OkOr :
    (c : WorkerConfig) (now stale_before : ℕ) (requested : Option (List ℕ)) (selected : Option ℕ)
    (w : World) (before : OutboxRow → World) (worlds : List World) (k : Work)
    → IsValid k.ledger
    → OkOr
        (Raises requested w before worlds)
        (deliver_due c now stale_before requested selected w before worlds k).0
unfolding deliver_due
deliver_due-OkOr c now stale_before requested selected w before worlds k h =
    under-OkOr c now stale_before requested selected w before worlds w.settings k refl h
