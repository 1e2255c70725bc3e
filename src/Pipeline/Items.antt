-- ===== src/Pipeline/Items.antt =====
-- What `deliver` hands over for one planned listing.
use chc_rental.Base.{
  ℕ, ◌≡◌, ◌⊎◌, refl, sym, ap, ◌∙◌, true, false, ◌||◌, none, some, [], ◌∷◌, ◌++◌, Bool-cases,
  Option-cases, inl, inr, ◌==◌, ==_iff, if◌then◌else◌,
}
use chc_rental.Base.Raise.{Result, ok, err}
use chc_rental.Models.{AllowlistEntry, Allowlist, get, is_allowlisted}
use chc_rental.Journal.{listing}
use chc_rental.Journal.Store.{Attempt}
use chc_rental.Journal.Seen.{Bank, record_delivery, reconcile_routine_seen}
use chc_rental.Pipeline.Plan.{PlannedPush, is_listed}
use chc_rental.Pipeline.Send.{
  Outcome, sent, already_sent, refused, unsure, Post, Sender, message_of,
}
use chc_rental.Journal.Answers.{is_locked, has_fault}
use chc_rental.Pipeline.Once.{own, Sends, held, handed, send_attempt-Sends}
use chc_rental.Pipeline.Deliver.{
  Mail, Office, render, routine_item, attempt_for, set_post, after_bank, retention, seen_delivery,
  after_item, already_seen, send_item, allowed_person, next_read, deliver_item,
}

abbrev pub listing_attempt : Mail → ℕ → PlannedPush → AllowlistEntry → Attempt
listing_attempt m now p person =
    attempt_for m person listing (render m.formats p) (routine_item p ∷ []) none now

-- Why nothing is sent: the person is not active in the allowlist of this turn, the key was seen, or
-- the attempt is locked or a write of the recipient's files fails.
abbrev pub IsQuiet : Mail → ℕ → PlannedPush → Office → Type 0
IsQuiet m now p o =
    (allowed_person (m.allowlist_at o.reads) p.telegram_id ≡ none)
    ⊎ ((is_listed p.key (already_seen m now (o.posts p.telegram_id)) ≡ true)
        ⊎ ((person : AllowlistEntry) × (get (m.allowlist_at o.reads) p.telegram_id ≡ some person)
            × ((is_locked (own (listing_attempt m now p person) (o.posts p.telegram_id))
                  || has_fault (o.posts p.telegram_id).bank.journal)
                ≡ true)))

-- What a turn may leave behind: the sender was given nothing, or the one message of the listing, for
-- a person who is active in the allowlist of this turn and by a key that was not seen.
pub data Hands (m : Mail) (sender : Sender) (now : ℕ) (p : PlannedPush) (o : Office)
    : Office → Type 0 where
  quiet :
      (o' : Office)
      → IsQuiet m now p o
      → ((id : ℕ) → (o'.posts id).outgoing ≡ (o.posts id).outgoing)
      → Hands m sender now p o o'
  hands :
      (o' : Office) (person : AllowlistEntry)
      → get (m.allowlist_at o.reads) p.telegram_id ≡ some person
      → person.active ≡ true
      → is_listed p.key (already_seen m now (o.posts p.telegram_id)) ≡ false
      → ((id : ℕ)
          → (o'.posts id).outgoing ≡ (
              if id == p.telegram_id
              then (o.posts id).outgoing ++ message_of (listing_attempt m now p person) ∷ []
              else (o.posts id).outgoing))
      → Hands m sender now p o o'

pub allowed_person-cases :
    (a : Allowlist) (id : ℕ)
    → (allowed_person a id ≡ none)
      ⊎ ((person : AllowlistEntry) × (allowed_person a id ≡ some person)
          × (get a id ≡ some person)
          × (person.active ≡ true))
unfolding allowed_person is_allowlisted
allowed_person-cases a id = elim (Option-cases (get a id)) [
  | inl gone ↦ inl (rw (is_allowlisted, gone) refl)
  | inr (person, found) ↦ elim (Bool-cases person.active) [
    | inl active ↦ inr (person, rw (is_allowlisted, found, active) refl, found, active)
    | inr removed ↦ inl (rw (is_allowlisted, found, removed) refl)
  ]
]

set_post-outgoing :
    (id n : ℕ) (q : Post) (o : Office)
    → ((set_post id q o).posts n).outgoing ≡ (if n == id then q.outgoing else (o.posts n).outgoing)
set_post-outgoing id n q o = elim (Bool-cases (n == id)) [
  | inl here ↦ rw here refl
  | inr there ↦ rw there refl
]

same_outgoing :
    (id n : ℕ) (b : Bank) (o : Office)
    → ((set_post id (record (o.posts id) { bank = b }) o).posts n).outgoing ≡ (o.posts n).outgoing
same_outgoing id n b o = elim (Bool-cases (n == id)) [
  | inl here ↦
      let same : n ≡ id = (==_iff n id).0 here in
      rw here (ap (λ k. (o.posts k).outgoing) (sym same))
  | inr there ↦ rw there refl
]

after_bank-outgoing {ℓ} :
    {A : Type ℓ} (id n : ℕ) (r : Result A × Bank) (o : Office)
    → ((after_bank id r o).posts n).outgoing ≡ (o.posts n).outgoing
after_bank-outgoing id n (ok a, b) o = same_outgoing id n b o
after_bank-outgoing id n (err e, b) o = same_outgoing id n b o

after_item-outgoing :
    (m : Mail) (now : ℕ) (p : PlannedPush) (r : Result Outcome) (o : Office) (n : ℕ)
    → ((after_item m now p r o).1.posts n).outgoing ≡ (o.posts n).outgoing
after_item-outgoing m now p (err e) o n = refl
after_item-outgoing m now p (ok refused) o n = refl
after_item-outgoing m now p (ok unsure) o n = refl
after_item-outgoing m now p (ok already_sent) o n =
    after_bank-outgoing p.telegram_id n
      (reconcile_routine_seen (retention m) now (o.posts p.telegram_id).bank) o
after_item-outgoing m now p (ok (sent c d)) o n =
    after_bank-outgoing p.telegram_id n
      (record_delivery (retention m) (seen_delivery p c d) now (o.posts p.telegram_id).bank) o

module _ (m : Mail) (sender : Sender) (now : ℕ) (p : PlannedPush) (o : Office) where
  sent_item :
      (person : AllowlistEntry) (q : Post) (r : Result Outcome)
      → get (m.allowlist_at o.reads) p.telegram_id ≡ some person
      → person.active ≡ true
      → is_listed p.key (already_seen m now (o.posts p.telegram_id)) ≡ false
      → Sends sender (listing_attempt m now p person) (o.posts p.telegram_id) q
      → Hands m sender now p o (after_item m now p r (set_post p.telegram_id q (next_read o))).1
  sent_item person q r found active fresh (held _ out reason keep) =
      quiet _ (inr (inr (person, found, reason))) (λ n.
        after_item-outgoing m now p r (set_post p.telegram_id q (next_read o)) n
        ∙ set_post-outgoing p.telegram_id n q (next_read o)
        ∙ elim (Bool-cases (n == p.telegram_id)) [
          | inl here ↦
              let same : n ≡ p.telegram_id = (==_iff n p.telegram_id).0 here in
              rw here (out ∙ ap (λ k. (o.posts k).outgoing) (sym same))
          | inr there ↦ rw there refl
        ])
  sent_item person q r found active fresh (handed _ free out locks) =
      hands _ person found active fresh (λ n.
        after_item-outgoing m now p r (set_post p.telegram_id q (next_read o)) n
        ∙ set_post-outgoing p.telegram_id n q (next_read o)
        ∙ elim (Bool-cases (n == p.telegram_id)) [
          | inl here ↦
              let same : n ≡ p.telegram_id = (==_iff n p.telegram_id).0 here in
              rw here (
                out
                ∙ ap (λ k. (o.posts k).outgoing ++ message_of (listing_attempt m now p person) ∷ [])
                    (sym same))
          | inr there ↦ rw there refl
        ])

  send_item-Hands :
      (person : AllowlistEntry)
      → get (m.allowlist_at o.reads) p.telegram_id ≡ some person
      → person.active ≡ true
      → Hands m sender now p o (send_item m sender now p person (next_read o)).1
  unfolding send_item
  send_item-Hands person found active =
      elim (Bool-cases (is_listed p.key (already_seen m now (o.posts p.telegram_id)))) [
        | inl seen ↦ rw seen (quiet _ (inr (inl seen)) (λ n. refl))
        | inr fresh ↦ rw fresh (
            sent_item person _ _ found active fresh (
              send_attempt-Sends sender (listing_attempt m now p person) now
                (o.posts p.telegram_id)))
      ]

  -- A turn of `deliver` for a planned listing, whether it returns or raises, gives the sender one
  -- message: the one of the listing, of the person with its id, who is active in the allowlist that the
  -- turn reads, and only if the key of the listing is not among the keys that were seen; the messages
  -- to all others stay as they were. Or it gives the sender nothing, which it does only if there is no
  -- such person, the key was seen, the attempt is sending, accepted or uncertain, or one of the writes
  -- to come to the recipient's files fails.
  pub deliver_item-Hands : Hands m sender now p o (deliver_item m sender now p o).1
  unfolding deliver_item
  deliver_item-Hands = elim (allowed_person-cases (m.allowlist_at o.reads) p.telegram_id) [
    | inl gone ↦ rw (deliver_item, gone) (quiet _ (inl gone) (λ n. refl))
    | inr (person, allowed, found, active) ↦
        rw (deliver_item, allowed) (send_item-Hands person found active)
  ]
