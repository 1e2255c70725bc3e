-- ===== src/Ledger/Outbox/Claim.antt =====
-- Which row `claim_due_outbox` takes.
use chc_rental.Base.{
  ℕ, ◌≡◌, ◌≢◌, refl, Bool, true, false, Option, none, some, List, [], ◌∷◌, arith, Bool-cases,
  Option-cases, inl, inr, ◌==◌,
}
use chc_rental.Base.Table.{
  All, update_where, count_where, find_where, find_where-update_where, find_where-All,
  find_where-holds,
}
use chc_rental.Base.Table.Distinct.{Distinct, All-any_where, All-map}
use chc_rental.Ledger.{Ledger, OutboxRow, OutboxStatus, shadow, pending}
use chc_rental.Ledger.Outbox.{
  has_id, id_and_status, status_eq, update_outbox, before, first_of_rows, is_due, claim_row,
  claim_selected, claim_due_outbox,
}
use chc_rental.Ledger.Outbox.Valid.{same_id, IsValid}

no_row_first :
    (p : OutboxRow → Bool) (rows : List OutboxRow)
    → first_of_rows p rows ≡ none
    → All (λ r. p r ≡ false) rows
unfolding first_of_rows
no_row_first p [] e = tt
no_row_first p (r ∷ rows) e = (ground arith, no_row_first p rows (ground arith))

first_holds :
    (p : OutboxRow → Bool) (rows : List OutboxRow) (r : OutboxRow)
    → first_of_rows p rows ≡ some r
    → p r ≡ true
unfolding first_of_rows
first_holds p [] r e = cc
first_holds p (x ∷ rows) r e = elim (Option-cases (first_of_rows p rows)) [
  | inl e' ↦ ground arith
  | inr (s, e') ↦ let h = first_holds p rows s e' in ground arith
]

-- No row of `p` comes before the first one.
first_before :
    (p : OutboxRow → Bool) (rows : List OutboxRow) (r : OutboxRow)
    → first_of_rows p rows ≡ some r
    → All (λ s. p s ≡ true → before r s ≡ true) rows
unfolding first_of_rows
first_before p [] r e = tt
first_before p (x ∷ rows) r e = elim (Option-cases (first_of_rows p rows)) [
  | inl e' ↦
      (λ hx. ground arith, All-map rows (λ s no_ yes_. cc (no_, yes_)) (no_row_first p rows e'))
  | inr (t, e') ↦ (
    λ hx. ground arith,
    All-map rows (λ s h hs. let first = h hs in ground arith) (first_before p rows t e'),
  )
]

first_found :
    (p : OutboxRow → Bool) (rows : List OutboxRow) (r : OutboxRow)
    → Distinct same_id rows
    → first_of_rows p rows ≡ some r
    → find_where (has_id r.outbox_id) rows ≡ some r
unfolding first_of_rows find_where
first_found p [] r unique e = cc
first_found p (x ∷ rows) r unique e = elim (Option-cases (first_of_rows p rows)) [
  | inl e' ↦ ground arith
  | inr (t, e') ↦
      let there = first_found p rows t unique.1 e' in
      let other : same_id x t ≡ false =
        find_where-All _ (has_id t.outbox_id) rows t (All-any_where (same_id x) rows unique.0)
          there in
      ground arith
]

status_eq_refl : (s : OutboxStatus) → status_eq s s ≡ true
status_eq_refl shadow = refl
status_eq_refl _ = refl

count_none :
    (k : ℕ) (s : OutboxStatus) (rows : List OutboxRow)
    → All (λ r. (k == r.outbox_id) ≡ false) rows
    → count_where (id_and_status k s) rows ≡ 0
unfolding count_where
count_none k s [] h = refl
count_none k s (r ∷ rows) h = ground (arith, h.0, count_none k s rows h.1)

-- Where ids are unique, the row of an id is the only one that an UPDATE of that id counts.
pub count_one :
    (r : OutboxRow) (rows : List OutboxRow)
    → Distinct same_id rows
    → find_where (has_id r.outbox_id) rows ≡ some r
    → count_where (id_and_status r.outbox_id r.status) rows ≡ 1
unfolding count_where find_where
count_one r [] unique found = cc
count_one r (x ∷ rows) unique found = elim (Bool-cases (x.outbox_id == r.outbox_id)) [
  | inl here ↦
      let rest : count_where (id_and_status r.outbox_id r.status) rows ≡ 0 =
        count_none r.outbox_id r.status rows
          (All-map rows (λ s o. ground arith) (All-any_where (same_id x) rows unique.0)) in
      ground (arith, status_eq_refl r.status)
  | inr there ↦ ground (arith, count_one r rows unique.1)
]

-- What `claim_due_outbox` hands back, and the ledger it leaves.
abbrev pub Claims : ℕ → List ℕ → Option ℕ → Ledger → Option OutboxRow × Ledger → Type 0
Claims now ids selected l (none, l') =
    (l' ≡ l) × All (λ s. is_due now ids selected s ≡ false) l.outbox
Claims now ids selected l (some c, l') =
    (r : OutboxRow) × (find_where (has_id r.outbox_id) l.outbox ≡ some r)
    × (is_due now ids selected r ≡ true)
    × All (λ s. is_due now ids selected s ≡ true → before r s ≡ true) l.outbox
    × (c ≡ claim_row now r)
    × (find_where (has_id r.outbox_id) l'.outbox ≡ some c)
    × ((id : ℕ)
        → id ≢ r.outbox_id
        → find_where (has_id id) l'.outbox ≡ find_where (has_id id) l.outbox)
    × (l'.delivery_receipts ≡ l.delivery_receipts)

claimed_found :
    (now : ℕ) (r : OutboxRow) (l : Ledger)
    → find_where (has_id r.outbox_id) l.outbox ≡ some r
    → r.status ≡ pending
    → find_where
        (has_id r.outbox_id)
        (update_where (id_and_status r.outbox_id pending) (claim_row now) l.outbox)
      ≡ some (claim_row now r)
claimed_found now r l found status =
    rw
      (
        find_where-update_where (has_id r.outbox_id) (id_and_status r.outbox_id pending)
            (claim_row now) l.outbox (λ x hit. refl),
        found,
      )
      (ground arith)

claimed_others :
    (now : ℕ) (r : OutboxRow) (l : Ledger) (id : ℕ)
    → id ≢ r.outbox_id
    → find_where
        (has_id id)
        (update_where (id_and_status r.outbox_id pending) (claim_row now) l.outbox)
      ≡ find_where (has_id id) l.outbox
claimed_others now r l id ne =
    rw
      (find_where-update_where (has_id id) (id_and_status r.outbox_id pending) (claim_row now)
        l.outbox (λ x hit. refl))
      (elim (Option-cases (find_where (has_id id) l.outbox)) [
        | inl e ↦ rw e
        | inr (x, e) ↦ rw e (ground (arith, find_where-holds (has_id id) l.outbox x e))
      ])

claim_selected-eq :
    (now : ℕ) (r : OutboxRow) (l : Ledger)
    → IsValid l
    → find_where (has_id r.outbox_id) l.outbox ≡ some r
    → r.status ≡ pending
    → claim_selected now r l ≡ (
      some (claim_row now r),
      update_outbox (id_and_status r.outbox_id pending) (claim_row now) l,
    )
unfolding claim_selected
claim_selected-eq now r l h found status =
    let one : count_where (id_and_status r.outbox_id pending) l.outbox ≡ 1 =
      rw status at (count_one r l.outbox h.unique_ids found) in
    rw (one, claim_selected, claimed_found now r l found status)

-- In a valid ledger the call returns no row exactly when none is due, and then changes nothing;
-- otherwise it returns the due row that comes first by (not_before, outbox_id), now sending with
-- one attempt more, and leaves every other row alone.
pub claim_due_outbox-Claims :
    (now : ℕ) (ids : List ℕ) (selected : Option ℕ) (l : Ledger)
    → IsValid l
    → Claims now ids selected l (claim_due_outbox now ids selected l)
unfolding claim_due_outbox
claim_due_outbox-Claims now ids selected l h =
    elim (Option-cases (first_of_rows (is_due now ids selected) l.outbox)) [
      | inl e ↦ rw (e, claim_due_outbox) (refl, no_row_first _ l.outbox e)
      | inr (r, e) ↦
          let found = first_found _ l.outbox r h.unique_ids e in
          let due = first_holds _ l.outbox r e in
          let status : r.status ≡ pending = ground arith in
          rw (e, claim_due_outbox)
            (rw (claim_selected-eq now r l h found status) (
              r,
              found,
              due,
              first_before _ l.outbox r e,
              refl,
              claimed_found now r l found status,
              claimed_others now r l,
              refl,
            ))
    ]
