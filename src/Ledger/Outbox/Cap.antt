-- ===== src/Ledger/Outbox/Cap.antt =====
-- The daily cap of a search: the slots that `enqueue_shadow` counts before it adds a row.
use native.Mathlib.Nat.{le_trans}
use chc_rental.Base.{
  ℕ, ◌+◌, ◌≤◌, ◌<◌, String, ◌≡◌, refl, true, false, Option, none, some, List, [], ◌∷◌, arith,
  Bool-cases, Option-cases, inl, inr, if-snd, eq_iff,
}
use chc_rental.Base.Table.{
  count_where, find_where, All, count_where-update_where-le, count_where-append,
}
use chc_rental.Ledger.{Ledger, OutboxRow}
use chc_rental.Ledger.Outbox.{
  ShadowIntent, uses_slot, enqueue_new, has_key, shadow_row, enqueue_shadow, insert_shadow,
}
use chc_rental.Ledger.Outbox.Steps.{Op, enqueue, step, steps, enqueued}
use chc_rental.Ledger.Outbox.Moves.{RowStep, Update, unchanged, updated, step-Update}

module _ (s : String) (start end : ℕ) where
  -- The slots of the search `s` that are used in the window.
  abbrev pub slots_used : Ledger → ℕ
  slots_used l = count_where (uses_slot s start end) l.outbox

  slot_before :
      (r r' : OutboxRow)
      → RowStep r r'
      → uses_slot s start end r' ≡ true
      → uses_slot s start end r ≡ true
  slot_before r r' h e = ground arith

  slots-Update : (l l' : Ledger) → Update l.outbox l'.outbox → slots_used l' ≤ slots_used l
  slots-Update l l' (unchanged e) = rw e (omega arith)
  slots-Update l l' (updated p f moved e) = rw e (
      count_where-update_where-le (uses_slot s start end) p f l.outbox
        (λ r hit. slot_before r (f r) (moved r hit)))

  module _ (cap : ℕ) where
    -- An intent for the search `s` that is created in the window counts its slots in the same window,
    -- with a cap of at most `cap`. One that is created outside of it may have any window and cap.
    abbrev pub CapsAt : Option ShadowIntent → Type 0
    CapsAt none = Unit
    CapsAt (some i) =
        i.search_id ≡ s
        → start ≤ i.created_at
        → i.created_at < end
        → (i.cap_window_start ≡ start) × (i.cap_window_end ≡ end) × (i.daily_cap ≤ cap)

    insert-slots :
        (i : ShadowIntent) (l : Ledger) → slots_used (insert_shadow i l).1 ≤ slots_used l + 1
    unfolding insert_shadow
    insert-slots i l =
        ground (
          arith,
          count_where-append (uses_slot s start end) l.outbox (shadow_row i l.next_outbox_id),
        )

    abbrev Within : Ledger → Type 0
    Within l = slots_used l ≤ cap

    insert-slots_other :
        (i : ShadowIntent) (l : Ledger)
        → uses_slot s start end (shadow_row i l.next_outbox_id) ≡ false
        → slots_used l ≤ cap
        → slots_used (insert_shadow i l).1 ≤ cap
    unfolding insert_shadow
    insert-slots_other i l other h =
        ground (
          arith,
          count_where-append (uses_slot s start end) l.outbox (shadow_row i l.next_outbox_id),
        )

    own_search :
        (i : ShadowIntent) (l : Ledger)
        → CapsAt (some i)
        → uses_slot s start end (shadow_row i l.next_outbox_id) ≡ true
        → slots_used l ≤ cap
        → slots_used (enqueue_new i l).1 ≤ cap
    unfolding enqueue_new
    own_search i l caps uses h =
        let own : i.search_id ≡ s = ground (arith, eq_iff i.search_id s) in
        let (at_start, at_end, small) = caps own (ground arith) (ground arith) in
        let same : count_where (uses_slot i.search_id i.cap_window_start i.cap_window_end) l.outbox
            ≡ slots_used l =
          rw (own, at_start, at_end) in
        ground (arith, insert-slots i l)

    enqueue-slots :
        (i : ShadowIntent) (l : Ledger)
        → CapsAt (some i)
        → slots_used l ≤ cap
        → slots_used (enqueue_shadow i l).1 ≤ cap
    unfolding enqueue_shadow
    enqueue-slots i l caps h =
        elim (Option-cases (find_where (has_key i.idempotency_key) l.outbox)) [
          | inr (r, e) ↦ rw (e, enqueue_shadow) h
          | inl e ↦
              rw (e, enqueue_shadow)
                (elim (Bool-cases (uses_slot s start end (shadow_row i l.next_outbox_id))) [
                  | inr other ↦
                      unfold enqueue_new in if-snd Within _ _ _ h (insert-slots_other i l other h)
                  | inl own ↦ own_search i l caps own h
                ])
        ]

    step-cap :
        (op : Op) (l : Ledger)
        → CapsAt (enqueued op)
        → slots_used l ≤ cap
        → slots_used (step op l) ≤ cap
    unfolding step
    step-cap (enqueue i) l caps h = enqueue-slots i l caps h
    step-cap op l caps h = le_trans (slots-Update l (step op l) (step-Update op l refl)) h

-- Under any further calls, in any order, the slots that a search has used in a window of a day never
-- pass its cap, if each call of `enqueue_shadow` for that search either creates its row outside of
-- the window, as one of another day does, or gives this window and no larger cap.
pub steps-cap :
    (s : String) (start end cap : ℕ) (ops : List Op) (l : Ledger)
    → All (λ op. CapsAt s start end cap (enqueued op)) ops
    → slots_used s start end l ≤ cap
    → slots_used s start end (steps ops l) ≤ cap
unfolding steps
steps-cap s start end cap [] l caps h = h
steps-cap s start end cap (op ∷ ops) l caps h =
    steps-cap s start end cap ops (step op l) caps.1 (step-cap s start end cap op l caps.0 h)
