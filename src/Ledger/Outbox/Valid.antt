-- ===== src/Ledger/Outbox/Valid.antt =====
-- What holds of the tables outbox and delivery_receipts of src/chc_rental/event_store.py between
-- calls, and the changes that keep it.
use chc_rental.Base.{
  ℕ, ◌<◌, String, ◌≡◌, refl, ◌∙◌, sym, Bool, true, false, Option, none, List, [], ◌∷◌, arith,
  Bool-cases, Option-cases, inl, inr, if◌then◌else◌, ◌==◌, if-snd, str_eq,
}
use chc_rental.Base.Table.{
  update_where, count_where, find_where, any_where, All, All-update_where, All-append,
  All-after_update,
}
use chc_rental.Base.Table.Distinct.{
  Distinct, any_where-append, any_where-find_where, All-any_where, any_where-All, All-map, All-zip,
  Distinct-update_where, Distinct-append,
}
use chc_rental.Ledger.{Ledger, empty, OutboxRow, sending, sent, DeliveryReceipt}
use chc_rental.Ledger.Outbox.{
  has_key, id_and_status, status_eq, sent_row, ShadowIntent, enqueue_shadow, enqueue_new,
  insert_shadow, with_shadow, with_receipt, shadow_row,
}

abbrev pub same_id : OutboxRow → OutboxRow → Bool
same_id r s = r.outbox_id == s.outbox_id

abbrev same_key : OutboxRow → OutboxRow → Bool
same_key r s = str_eq r.idempotency_key s.idempotency_key

abbrev same_receipt : DeliveryReceipt → DeliveryReceipt → Bool
same_receipt d e = d.outbox_id == e.outbox_id

-- A receipt for the row is there exactly when the row is sent.
abbrev pub HasReceiptIfSent : List DeliveryReceipt → OutboxRow → Type 0
HasReceiptIfSent receipts r =
    any_where (λ d. d.outbox_id == r.outbox_id) receipts ≡ status_eq r.status sent

pub record IsValid (l : Ledger) : Type 0 where
  pub unique_ids : Distinct same_id l.outbox
  pub unique_keys : Distinct same_key l.outbox
  pub ids_used : All (λ r. r.outbox_id < l.next_outbox_id) l.outbox
  pub receipts_match : All (HasReceiptIfSent l.delivery_receipts) l.outbox
  pub receipts_used : All (λ d. d.outbox_id < l.next_outbox_id) l.delivery_receipts
  pub one_receipt : Distinct same_receipt l.delivery_receipts

IsValid-empty : IsValid empty
unfolding any_where
IsValid-empty = record {
  unique_ids = tt;
  unique_keys = tt;
  ids_used = tt;
  receipts_match = tt;
  receipts_used = tt;
  one_receipt = tt;
}

-- An update that leaves the keys alone, and who is sent.
pub update-IsValid :
    (p : OutboxRow → Bool) (f : OutboxRow → OutboxRow) (l l' : Ledger)
    → ((r : OutboxRow) → (f r).outbox_id ≡ r.outbox_id)
    → ((r : OutboxRow) → (f r).idempotency_key ≡ r.idempotency_key)
    → ((r : OutboxRow) → p r ≡ true → status_eq (f r).status sent ≡ status_eq r.status sent)
    → l'.outbox ≡ update_where p f l.outbox
    → l'.next_outbox_id ≡ l.next_outbox_id
    → l'.delivery_receipts ≡ l.delivery_receipts
    → IsValid l
    → IsValid l'
update-IsValid p f l l' id key is_sent rows next receipts h = record {
  unique_ids =
      rw rows
        (Distinct-update_where same_id p f l.outbox (λ r s. rw id) (λ r s. rw id) h.unique_ids);
  unique_keys =
      rw rows
        (Distinct-update_where same_key p f l.outbox (λ r s. rw key) (λ r s. rw key) h.unique_keys);
  ids_used =
      rw (rows, next) (All-update_where _ p f l.outbox (λ r used hit. rw id used) h.ids_used);
  receipts_match =
      rw (rows, receipts)
        (All-update_where _ p f l.outbox (λ r match hit. rw id (match ∙ sym (is_sent r hit)))
          h.receipts_match);
  receipts_used = rw (receipts, next) h.receipts_used;
  one_receipt = rw receipts h.one_receipt;
}

-- A new row has a new id and a new key, and no receipt.
with_shadow-IsValid :
    (i : ShadowIntent) (l : Ledger)
    → find_where (has_key i.idempotency_key) l.outbox ≡ none
    → IsValid l
    → IsValid (with_shadow i l)
with_shadow-IsValid i l new h =
    let row = shadow_row i l.next_outbox_id in
    record {
      unique_ids =
          Distinct-append same_id l.outbox row
            (any_where-All _ l.outbox (All-map l.outbox (λ r used. ground arith) h.ids_used))
            h.unique_ids;
      unique_keys =
          Distinct-append same_key l.outbox row (any_where-find_where _ l.outbox new) h.unique_keys;
      ids_used =
          All-append _ l.outbox row (All-map l.outbox (λ r used. omega arith) h.ids_used)
            (omega arith);
      receipts_match = All-append _ l.outbox row h.receipts_match (
          any_where-All _ l.delivery_receipts
            (All-map l.delivery_receipts (λ d used. ground arith) h.receipts_used));
      receipts_used = All-map l.delivery_receipts (λ r used. omega arith) h.receipts_used;
      one_receipt = h.one_receipt;
    }

insert_shadow-IsValid :
    (i : ShadowIntent) (l : Ledger)
    → find_where (has_key i.idempotency_key) l.outbox ≡ none
    → IsValid l
    → IsValid (insert_shadow i l).1
unfolding insert_shadow
insert_shadow-IsValid i l new h = if-snd IsValid _ _ _ (with_shadow-IsValid i l new h) h

pub enqueue_shadow-IsValid :
    (i : ShadowIntent) (l : Ledger) → IsValid l → IsValid (enqueue_shadow i l).1
unfolding enqueue_shadow
enqueue_shadow-IsValid i l h =
    elim (Option-cases (find_where (has_key i.idempotency_key) l.outbox)) [
      | inl e ↦
          rw (e, enqueue_shadow)
            (unfold enqueue_new in if-snd IsValid _ _ _ h (insert_shadow-IsValid i l e h))
      | inr (r, e) ↦ rw (e, enqueue_shadow) h
    ]

count-none :
    (k : ℕ) (rows : List OutboxRow)
    → All (λ r. (k == r.outbox_id) ≡ false) rows
    → count_where (id_and_status k sending) rows ≡ 0
unfolding count_where
count-none k [] h = refl
count-none k (r ∷ rows) h = ground (arith, h.0, count-none k rows h.1)

-- Where one row of an id is sending, all rows of that id are.
only_sending :
    (k : ℕ) (rows : List OutboxRow)
    → Distinct same_id rows
    → count_where (id_and_status k sending) rows ≡ 1
    → All (λ r. r.outbox_id ≡ k → r.status ≡ sending) rows
unfolding count_where
only_sending k [] unique one = tt
only_sending k (r ∷ rows) unique one =
    let others = All-any_where (same_id r) rows unique.0 in
    elim (Bool-cases (r.outbox_id == k)) [
      | inl here ↦
          let none_left : count_where (id_and_status k sending) rows ≡ 0 =
            count-none k rows (All-map rows (λ s o. ground arith) others) in
          (λ e. ground arith, All-map rows (λ s o e. ground arith) others)
      | inr else_ ↦ (λ e. ground arith, only_sending k rows unique.1 (ground arith))
    ]

sending_used :
    (k n : ℕ) (rows : List OutboxRow)
    → All (λ r. r.outbox_id < n) rows
    → count_where (id_and_status k sending) rows ≡ 1
    → k < n
unfolding count_where
sending_used k n [] used one = absurd (omega arith)
sending_used k n (r ∷ rows) used one = elim (Bool-cases (r.outbox_id == k)) [
  | inl here ↦ let u = used.0 in ground arith
  | inr else_ ↦ sending_used k n rows used.1 (ground arith)
]

matches_after :
    (k now : ℕ) (message_id : Option String) (l : Ledger) (r : OutboxRow)
    → HasReceiptIfSent l.delivery_receipts r
    → (r.outbox_id ≡ k → r.status ≡ sending)
    → HasReceiptIfSent
        (with_receipt k now message_id l).delivery_receipts
        (if id_and_status k sending r then sent_row now r else r)
matches_after k now message_id l r before only =
    let added =
      any_where-append (λ d. d.outbox_id == r.outbox_id) l.delivery_receipts
        (record { outbox_id = k; telegram_message_id = message_id; accepted_at = now }) in
    elim (Bool-cases (r.outbox_id == k)) [
      | inl here ↦
          let s : r.status ≡ sending = only (ground arith) in rw (here, s) (added ∙ ground arith)
      | inr else_ ↦ rw else_ (added ∙ ground arith)
    ]

-- The row that is sent is the only one whose receipt is new.
pub with_receipt-IsValid :
    (k now : ℕ) (message_id : Option String) (l : Ledger)
    → count_where (id_and_status k sending) l.outbox ≡ 1
    → any_where (λ d. d.outbox_id == k) l.delivery_receipts ≡ false
    → IsValid l
    → IsValid (with_receipt k now message_id l)
with_receipt-IsValid k now message_id l one new h =
    let p = id_and_status k sending in
    record {
      unique_ids =
          Distinct-update_where same_id p (sent_row now) l.outbox (λ r s. refl) (λ r s. refl)
            h.unique_ids;
      unique_keys =
          Distinct-update_where same_key p (sent_row now) l.outbox (λ r s. refl) (λ r s. refl)
            h.unique_keys;
      ids_used = All-update_where _ p (sent_row now) l.outbox (λ r used hit. used) h.ids_used;
      receipts_match =
          All-after_update _ _ p (sent_row now) l.outbox
            (λ r before. matches_after k now message_id l r before.0 before.1)
            (All-zip _ _ l.outbox h.receipts_match (only_sending k l.outbox h.unique_ids one));
      receipts_used =
          All-append _ l.delivery_receipts _ h.receipts_used
            (sending_used k l.next_outbox_id l.outbox h.ids_used one);
      one_receipt = Distinct-append same_receipt l.delivery_receipts _ new h.one_receipt;
    }
