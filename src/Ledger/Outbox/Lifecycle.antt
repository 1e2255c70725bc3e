-- ===== src/Ledger/Outbox/Lifecycle.antt =====
-- The life of an outbox row: which status may follow which, and what never changes.
use mathlib.Core.Option
use mathlib.Core.Path.{subst}
use chc_rental.Base.{
  ℕ, ◌≡◌, refl, ◌∙◌, Bool, true, false, Option, none, some, List, [], ◌∷◌, ◌++◌, arith, Bool-cases,
  Option-cases, inl, inr, if◌then◌else◌, if-snd,
}
use chc_rental.Base.Table.{find_where, find_where-update_where, find_where-append}
use chc_rental.Ledger.{Ledger, OutboxRow, OutboxStatus, sent, uncertain, cancelled}
use chc_rental.Ledger.Outbox.{
  has_id, has_key, ShadowIntent, enqueue_shadow, enqueue_new, insert_shadow, shadow_row,
}
use chc_rental.Ledger.Outbox.Steps.{Op, enqueue, step, steps}
use chc_rental.Ledger.Outbox.Moves.{
  Follows, Follows-refl, RowStep-refl, Update, step-Update, unchanged, updated,
}

Follows-Update :
    (id : ℕ) (rows rows' : List OutboxRow)
    → Update rows rows'
    → Follows (find_where (has_id id) rows) (find_where (has_id id) rows')
Follows-Update id rows rows' (unchanged e) = rw e (Follows-refl (find_where (has_id id) rows))
Follows-Update id rows rows' (updated p f moved e) =
    rw (e, find_where-update_where (has_id id) p f rows (λ r hit. rw ((moved r hit).id)))
      (Follows-map (find_where (has_id id) rows))
  where
    Follows-map : (o : Option OutboxRow) → Follows o (Option.map (λ r. if p r then f r else r) o)
    Follows-map none = tt
    Follows-map (some r) = elim (Bool-cases (p r)) [
      | inl hit ↦ rw hit (moved r hit)
      | inr miss ↦ rw miss (RowStep-refl r)
    ]

Follows-append :
    (id : ℕ) (i : ShadowIntent) (n : ℕ) (rows : List OutboxRow)
    → Follows (find_where (has_id id) rows) (find_where (has_id id) (rows ++ shadow_row i n ∷ []))
Follows-append id i n rows =
    rw (find_where-append (has_id id) rows (shadow_row i n))
      (elim (Option-cases (find_where (has_id id) rows)) [
        | inl e ↦ rw e (ground arith)
        | inr (r, e) ↦ rw e (RowStep-refl r)
      ])

module _ (id : ℕ) (l : Ledger) where
  abbrev Stays : Ledger → Type 0
  Stays l' = Follows (find_where (has_id id) l.outbox) (find_where (has_id id) l'.outbox)

  Stays-same : Stays l
  Stays-same = Follows-refl (find_where (has_id id) l.outbox)

  insert_shadow-Stays : (i : ShadowIntent) → Stays (insert_shadow i l).1
  unfolding insert_shadow
  insert_shadow-Stays i =
      if-snd Stays _ _ _ (Follows-append id i l.next_outbox_id l.outbox) Stays-same

  enqueue_new-Stays : (i : ShadowIntent) → Stays (enqueue_new i l).1
  unfolding enqueue_new
  enqueue_new-Stays i = if-snd Stays _ _ _ Stays-same (insert_shadow-Stays i)

  enqueue_shadow-Stays : (i : ShadowIntent) → Stays (enqueue_shadow i l).1
  unfolding enqueue_shadow
  enqueue_shadow-Stays i = elim (Option-cases (find_where (has_key i.idempotency_key) l.outbox)) [
    | inl e ↦ rw (e, enqueue_shadow) (enqueue_new-Stays i)
    | inr (r, e) ↦ rw (e, enqueue_shadow) Stays-same
  ]

-- Whatever call is made, under every id there is what was there, moved by at most one step of the
-- life of a row, or a new shadow without attempts: no call removes a row, lowers its attempts, moves
-- a row that is sent, uncertain or cancelled, or changes its id, idempotency key, recipient, search
-- and its name, matching searches, identity key, version hash, event type, text or time of creation.
-- The time before which the row is not sent may change.
pub step-Follows :
    (op : Op) (id : ℕ) (l : Ledger)
    → Follows (find_where (has_id id) l.outbox) (find_where (has_id id) (step op l).outbox)
unfolding step
step-Follows (enqueue i) id l = enqueue_shadow-Stays id l i
step-Follows op id l = Follows-Update id l.outbox (step op l).outbox (step-Update op l refl)

-- A row whose outcome is settled, or unknown for good.
abbrev pub is_final : OutboxStatus → Bool
is_final sent = true
is_final uncertain = true
is_final cancelled = true
is_final _ = false

-- What the rows under one id, before and after, have in common if the first is final.
abbrev pub SameOutcome : OutboxRow → Option OutboxRow → Type 0
SameOutcome r o =
    (r' : OutboxRow) × (o ≡ some r')
    × (r'.status ≡ r.status)
    × (r'.telegram_id ≡ r.telegram_id)
    × (r'.message_text ≡ r.message_text)

Follows-final :
    (r : OutboxRow) (o : Option OutboxRow)
    → Follows (some r) o
    → is_final r.status ≡ true
    → SameOutcome r o
Follows-final r none h final = absurd h
Follows-final r (some r') h final = (r', refl, ground arith, h.recipient, h.text)

-- A row that is sent, uncertain or cancelled has the same status after any further calls: a
-- message whose acceptance is unknown is not sent again, neither by the worker nor by a retry.
pub steps-final :
    (ops : List Op) (id : ℕ) (l : Ledger) (r : OutboxRow)
    → find_where (has_id id) l.outbox ≡ some r
    → is_final r.status ≡ true
    → SameOutcome r (find_where (has_id id) (steps ops l).outbox)
unfolding steps
steps-final [] id l r e final = (r, e, refl, refl, refl)
steps-final (op ∷ ops) id l r e final =
    let moved : Follows (some r) (find_where (has_id id) (step op l).outbox) =
      subst (λ o. Follows o (find_where (has_id id) (step op l).outbox)) e (step-Follows op id l) in
    let (r₁, e₁, s₁, t₁, m₁) = Follows-final r _ moved final in
    let (r₂, e₂, s₂, t₂, m₂) = steps-final ops id (step op l) r₁ e₁ (rw s₁ final) in
    (r₂, e₂, s₂ ∙ s₁, t₂ ∙ t₁, m₂ ∙ m₁)
