-- ===== src/Ledger/Outbox/Idempotent.antt =====
-- The idempotency key of an intent. `prune_history` is not among the calls here.
use mathlib.Core.Option
use chc_rental.Base.{
  String, ◌≡◌, refl, Bool, Option, none, some, List, [], ◌∷◌, arith, Bool-cases, Option-cases, inl,
  inr, if-snd, if◌then◌else◌, eq_iff, eq_refl,
}
use chc_rental.Base.Raise.{ok}
use chc_rental.Base.Table.{find_where, find_where-update_where, find_where-append, find_where-holds}
use chc_rental.Ledger.{Ledger, OutboxRow}
use chc_rental.Ledger.Outbox.{
  ShadowIntent, has_key, shadow_row, enqueue_shadow, enqueue_new, insert_shadow, insertable, queued,
  duplicate, OutboxEnqueueResult,
}
use chc_rental.Ledger.Outbox.Steps.{Op, enqueue, step, steps}
use chc_rental.Ledger.Outbox.Moves.{Update, unchanged, updated, step-Update}

-- A row of this key is there.
abbrev pub HasKey : String → Ledger → Type 0
HasKey key l = (r : OutboxRow) × (find_where (has_key key) l.outbox ≡ some r)

mapped :
    (p : OutboxRow → Bool) (f : OutboxRow → OutboxRow) (o : Option OutboxRow) (r : OutboxRow)
    → o ≡ some r
    → (r' : OutboxRow) × (Option.map (λ x. if p x then f x else x) o ≡ some r')
mapped p f none r e = cc
mapped p f (some x) r e = (_, refl)

HasKey-Update :
    (key : String) (l l' : Ledger) → Update l.outbox l'.outbox → HasKey key l → HasKey key l'
HasKey-Update key l l' (unchanged e) (r, found) = (r, rw e found)
HasKey-Update key l l' (updated p f moved e) (r, found) =
    let (r', there) = mapped p f (find_where (has_key key) l.outbox) r found in
    (
      r',
      rw (e, find_where-update_where (has_key key) p f l.outbox (λ x hit. rw ((moved x hit).key)))
          there,
    )

HasKey-insert :
    (key : String) (i : ShadowIntent) (l : Ledger) → HasKey key l → HasKey key (insert_shadow i l).1
unfolding insert_shadow
HasKey-insert key i l (r, found) = elim (Bool-cases (insertable i l)) [
  | inl fits ↦
      rw fits
        (r, rw (find_where-append (has_key key) l.outbox (shadow_row i l.next_outbox_id), found))
  | inr bad ↦ rw bad (r, found)
]

HasKey-enqueue :
    (key : String) (i : ShadowIntent) (l : Ledger)
    → HasKey key l
    → HasKey key (enqueue_shadow i l).1
unfolding enqueue_shadow
HasKey-enqueue key i l h = elim (Option-cases (find_where (has_key i.idempotency_key) l.outbox)) [
  | inr (r, e) ↦ rw (e, enqueue_shadow) h
  | inl e ↦
      rw (e, enqueue_shadow)
        (unfold enqueue_new in if-snd (HasKey key) _ _ _ h (HasKey-insert key i l h))
]

step-HasKey : (key : String) (op : Op) (l : Ledger) → HasKey key l → HasKey key (step op l)
unfolding step
step-HasKey key (enqueue i) l h = HasKey-enqueue key i l h
step-HasKey key op l h = HasKey-Update key l (step op l) (step-Update op l refl) h

steps-HasKey : (key : String) (ops : List Op) (l : Ledger) → HasKey key l → HasKey key (steps ops l)
unfolding steps
steps-HasKey key [] l h = h
steps-HasKey key (op ∷ ops) l h = steps-HasKey key ops (step op l) (step-HasKey key op l h)

queued-HasKey :
    (i : ShadowIntent) (l : Ledger) (res : OutboxEnqueueResult)
    → (enqueue_shadow i l).0 ≡ ok res
    → res.outcome ≡ queued
    → HasKey i.idempotency_key (enqueue_shadow i l).1
unfolding enqueue_shadow enqueue_new insert_shadow
queued-HasKey i l res e q = (
  shadow_row i l.next_outbox_id,
  ground (
    arith,
    find_where-append (has_key i.idempotency_key) l.outbox (shadow_row i l.next_outbox_id),
    eq_refl i.idempotency_key,
  ),
)

-- Once an intent was queued, an intent with the same key is a duplicate and changes nothing,
-- whatever calls were made in between: also after the row was sent, cancelled or failed.
pub enqueue_once :
    (i j : ShadowIntent) (ops : List Op) (l : Ledger) (res : OutboxEnqueueResult)
    → (enqueue_shadow i l).0 ≡ ok res
    → res.outcome ≡ queued
    → j.idempotency_key ≡ i.idempotency_key
    → let l' = steps ops (enqueue_shadow i l).1 in
      (r : OutboxRow) × (enqueue_shadow j l'
        ≡ (ok (record { outcome = duplicate; row = some r }), l'))
      × (r.idempotency_key ≡ i.idempotency_key)
enqueue_once i j ops l res e q key =
    let (r, found) =
      steps-HasKey i.idempotency_key ops (enqueue_shadow i l).1 (queued-HasKey i l res e q) in
    let again : find_where (has_key j.idempotency_key) (steps ops (enqueue_shadow i l).1).outbox
        ≡ some r =
      rw key found in
    (
      r,
      unfold enqueue_shadow in rw (again, enqueue_shadow),
      (eq_iff r.idempotency_key i.idempotency_key).0 (find_where-holds _ _ r found),
    )
