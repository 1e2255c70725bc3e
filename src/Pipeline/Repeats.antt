-- ===== src/Pipeline/Repeats.antt =====
-- Many messages of src/chc_rental/pipeline.py in a row, and how often one of them is handed over.
use chc_rental.Base.{
  ℕ, ◌+◌, ◌≤◌, String, ◌≡◌, refl, sym, ap, ◌∙◌, Bool, true, false, ◌&&◌, Option, List, [], ◌∷◌,
  ◌++◌, arith, Bool-cases, inl, inr, ◌⊎◌, ◌==◌, ==_iff, str_eq, eq_iff, if◌then◌else◌,
}
use chc_rental.Base.Table.{count_where, count_where-append}
use chc_rental.Journal.{RoutineDeliveryEntry}
use chc_rental.Journal.Store.{Attempt, routine_entry}
use chc_rental.Journal.Calls.{call-Follows}
use chc_rental.Journal.Machine.{prepare, transition, Follows, kept, run}
use chc_rental.Journal.Answers.{is_locked}
use chc_rental.Pipeline.Send.{Message, Post, Sender, message_of, send_attempt}
use chc_rental.Pipeline.Once.{is_refusal, own, Sends, held, handed, send_attempt-Sends}
use chc_rental.Pipeline.Keeps.{send_attempt-keeps}

Follows-other :
    (own : Bool) (o o' : Option RoutineDeliveryEntry) → Follows own o o' → own ≡ false → o' ≡ o
Follows-other own o o' (kept _ _) h = refl
Follows-other own o o' _ h = absurd (let w : true ≡ false = h in ground arith)

abbrev pub is_message : ℕ → String → Message → Bool
is_message day id m = m.local_date == day && str_eq m.attempt_id id

-- A run of calls, whichever of them raise.
unfoldable pub send_all : Sender → List (Attempt × ℕ) → Post → Post
send_all sender [] p = p
send_all sender ((a, now) ∷ calls) p = send_all sender calls (send_attempt sender a now p).1

-- The message of an attempt was not handed over, or it was once and the attempt is locked.
abbrev AtMostOnce : ℕ → String → Post → Type 0
AtMostOnce day id p =
    (count_where (is_message day id) p.outgoing ≡ 0)
    ⊎ ((count_where (is_message day id) p.outgoing ≡ 1)
        × (is_locked (routine_entry day id p.bank.journal) ≡ true))

module _ (sender : Sender) (day : ℕ) (id : String) where
  other-entry :
      (a : Attempt) (now : ℕ) (p : Post)
      → (a.payload.local_date == day && str_eq a.attempt_id id) ≡ false
      → routine_entry day id (send_attempt sender a now p).1.bank.journal
        ≡ routine_entry day id p.bank.journal
  unfolding run
  other-entry a now p other =
      send_attempt-keeps (λ j. routine_entry day id j ≡ routine_entry day id p.bank.journal) a now
        (λ j h. Follows-other _ _ _ (call-Follows (prepare a now) j day id) other ∙ h)
        (λ t r j h.
          Follows-other _ _ _
            (call-Follows (transition a.payload.local_date a.attempt_id t now r) j day id) other
          ∙ h)
        sender p refl

  counted_after :
      (p : Post) (m : Message) (out : List Message)
      → out ≡ p.outgoing ++ m ∷ []
      → count_where (is_message day id) out
        ≡ count_where (is_message day id) p.outgoing + (if is_message day id m then 1 else 0)
  counted_after p m out e =
      ap (count_where (is_message day id)) e ∙ count_where-append (is_message day id) p.outgoing m

  other-AtMostOnce :
      (a : Attempt) (p p' : Post)
      → is_message day id (message_of a) ≡ false
      → routine_entry day id p'.bank.journal ≡ routine_entry day id p.bank.journal
      → Sends sender a p p'
      → AtMostOnce day id p
      → AtMostOnce day id p'
  other-AtMostOnce a p p' other same s h = as_before h
    where
      count_same :
          (q : Post)
          → Sends sender a p q
          → count_where (is_message day id) q.outgoing ≡ count_where (is_message day id) p.outgoing
      count_same q (held _ out reason keep) = ap (count_where (is_message day id)) out
      count_same q (handed _ free out locks) =
          counted_after p (message_of a) q.outgoing out ∙ rw other (omega arith)

      as_before : AtMostOnce day id p → AtMostOnce day id p'
      as_before (inl none_) = inl (count_same p' s ∙ none_)
      as_before (inr (one, locked)) = inr (count_same p' s ∙ one, ap is_locked same ∙ locked)

  own-AtMostOnce :
      (a : Attempt) (p p' : Post)
      → ((out : List Message) (m : Message)
          → is_message day id m ≡ true
          → is_refusal (sender.send (out ++ m ∷ [])) ≡ false)
      → is_message day id (message_of a) ≡ true
      → ((q : Post) → own a q ≡ routine_entry day id q.bank.journal)
      → Sends sender a p p'
      → AtMostOnce day id p
      → AtMostOnce day id p'
  own-AtMostOnce a p p' never is_own at (held _ out reason keep) (inl none_) =
      inl (ap (count_where (is_message day id)) out ∙ none_)
  own-AtMostOnce a p p' never is_own at (held _ out reason keep) (inr (one, locked)) = inr (
    ap (count_where (is_message day id)) out ∙ one,
    ap is_locked (sym (at p')) ∙ keep (ap is_locked (at p) ∙ locked),
  )
  own-AtMostOnce a p p' never is_own at (handed _ free out locks) (inl none_) = inr (
    counted_after p (message_of a) p'.outgoing out ∙ rw (is_own, none_) refl,
    ap is_locked (sym (at p')) ∙ locks (rw out (never p.outgoing (message_of a) is_own)),
  )
  own-AtMostOnce a p p' never is_own at (handed _ free out locks) (inr (one, locked)) =
      absurd (let w : true ≡ false = sym locked ∙ ap is_locked (sym (at p)) ∙ free in ground arith)

  step-AtMostOnce :
      (a : Attempt) (now : ℕ) (p : Post)
      → ((out : List Message) (m : Message)
          → is_message day id m ≡ true
          → is_refusal (sender.send (out ++ m ∷ [])) ≡ false)
      → AtMostOnce day id p
      → AtMostOnce day id (send_attempt sender a now p).1
  step-AtMostOnce a now p never h = elim (Bool-cases (is_message day id (message_of a))) [
    | inl is_own ↦
        let at_day : a.payload.local_date ≡ day = ground (arith, ==_iff a.payload.local_date day) in
        let at_id : a.attempt_id ≡ id = ground (arith, eq_iff a.attempt_id id) in
        own-AtMostOnce a p _ never is_own (λ q. rw (at_day, at_id) refl)
          (send_attempt-Sends sender a now p) h
    | inr other ↦
        other-AtMostOnce a p _ other (other-entry a now p other) (send_attempt-Sends sender a now p)
          h
  ]

  all-AtMostOnce :
      (calls : List (Attempt × ℕ)) (p : Post)
      → ((out : List Message) (m : Message)
          → is_message day id m ≡ true
          → is_refusal (sender.send (out ++ m ∷ [])) ≡ false)
      → AtMostOnce day id p
      → AtMostOnce day id (send_all sender calls p)
  unfolding send_all
  all-AtMostOnce [] p never h = h
  all-AtMostOnce ((a, now) ∷ calls) p never h =
      all-AtMostOnce calls _ never (step-AtMostOnce a now p never h)

-- However often attempts are sent, in whatever order, whichever writes of the journal are lost and
-- whichever calls raise, the sender is given the message of an attempt of a day once at most, if it
-- was not given it before and never refuses it with an error that is not ambiguous.
pub sent_once :
    (sender : Sender) (day : ℕ) (id : String) (calls : List (Attempt × ℕ)) (p : Post)
    → ((out : List Message) (m : Message)
        → is_message day id m ≡ true
        → is_refusal (sender.send (out ++ m ∷ [])) ≡ false)
    → count_where (is_message day id) p.outgoing ≡ 0
    → count_where (is_message day id) (send_all sender calls p).outgoing ≤ 1
sent_once sender day id calls p never none_ =
    elim (all-AtMostOnce sender day id calls p never (inl none_)) [
      | inl e ↦ omega arith
      | inr (e, locked) ↦ omega arith
    ]
