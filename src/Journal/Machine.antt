-- ===== src/Journal/Machine.antt =====
-- The journal as a state machine of each of its attempts.
use chc_rental.Base.{
  ℕ, String, ◌≡◌, refl, sym, ◌∙◌, Bool, true, false, ◌&&◌, ◌||◌, Option, none, some, Bool-cases,
  inl, inr, ◌==◌, ==_iff, str_eq, eq_iff,
}
use mathlib.Core.Path.{subst}
use mathlib.Core.Option
use chc_rental.Journal.{
  RoutineStatus, prepared, sending, accepted, failed, uncertain, JournalRow, PayloadPatch,
  RoutineDeliveryEntry,
}
use chc_rental.Journal.Store.{
  Journal, Attempt, Target, status_eq, Receipt, routine_entry, write, prepare_routine_delivery,
  transition_routine_delivery, annotate_routine_delivery,
}
use chc_rental.Journal.Folds.{entry_after, write-cases}

-- The calls that write to the journal of a recipient.
pub data Call : Type 0 where
  prepare : Attempt → ℕ → Call
  transition : ℕ → String → Target → ℕ → Receipt → Call
  annotate : ℕ → String → PayloadPatch → Call

-- The journal after a call, whether it returned or raised.
unfoldable pub run : Call → Journal → Journal
run (prepare a now) j = (prepare_routine_delivery a now j).1
run (transition day id t now r) j = (transition_routine_delivery day id t now r j).1
run (annotate day id p) j = (annotate_routine_delivery day id p j).1

-- Is a call for the attempt of an id, on a day.
abbrev pub is_for : ℕ → String → Call → Bool
is_for day id (prepare a now) = a.payload.local_date == day && str_eq a.attempt_id id
is_for day id (transition d i t now r) = d == day && str_eq i id
is_for day id (annotate d i p) = d == day && str_eq i id

-- The moves of a send.
pub data Moves : RoutineStatus → RoutineStatus → Type 0 where
  sends : Moves prepared sending
  accepts : Moves sending accepted
  refuses : Moves sending failed
  doubts : Moves sending uncertain

-- What a call, `own` if it is for the attempt, may make of its entry: nothing; a first entry; a new
-- try of an attempt that failed; a move of a send, with the payload as it was; or a note on an
-- attempt that is settled, which stays so.
pub data Follows : Bool → Option RoutineDeliveryEntry → Option RoutineDeliveryEntry → Type 0 where
  kept : (own : Bool) (o : Option RoutineDeliveryEntry) → Follows own o o
  first_staged : (e : RoutineDeliveryEntry) → e.status ≡ prepared → Follows true none (some e)
  staged_again :
      (d e : RoutineDeliveryEntry)
      → d.status ≡ failed
      → e.status ≡ prepared
      → Follows true (some d) (some e)
  moved_on :
      (d e : RoutineDeliveryEntry)
      → Moves d.status e.status
      → e.payload ≡ d.payload
      → Follows true (some d) (some e)
  noted :
      (d e : RoutineDeliveryEntry)
      → (status_eq d.status accepted || status_eq d.status uncertain) ≡ true
      → e.status ≡ d.status
      → e.telegram_message_id ≡ d.telegram_message_id
      → Follows true (some d) (some e)

pub kept_by : (own : Bool) (o o' : Option RoutineDeliveryEntry) → o' ≡ o → Follows own o o'
kept_by own o o' e = subst (Follows own o) (sym e) (kept own o)

-- What a write makes of an entry, by what its line makes of the entry of its own id.
module _ (d : ℕ) (i : String) (r : JournalRow) (j : Journal) where
  pub write-Follows :
      (day : ℕ) (id : String)
      → Follows true (routine_entry d i j) (entry_after d i r j)
      → ((id' : String) → str_eq i id' ≡ false → entry_after d id' r j ≡ routine_entry d id' j)
      → Follows
          (d == day && str_eq i id)
          (routine_entry day id j)
          (routine_entry day id (write d i r j).1)
  write-Follows day id own other = elim (write-cases day d id i r j) [
    | inl same ↦ kept_by _ _ _ same
    | inr e ↦ elim (Bool-cases (d == day)) [
      | inr another ↦ kept_by _ _ _ (e ∙ rw another refl)
      | inl at_day ↦
          let day_eq : d ≡ day = (==_iff d day).0 at_day in
          elim (Bool-cases (str_eq i id)) [
            | inl at_id ↦
                let id_eq : i ≡ id = (eq_iff i id).0 at_id in
                let own' : Follows true (routine_entry day id j) (entry_after day id r j) =
                  subst (λ (n : ℕ). Follows true (routine_entry n id j) (entry_after n id r j))
                    day_eq
                    (subst
                      (λ (s : String). Follows true (routine_entry d s j) (entry_after d s r j))
                      id_eq own) in
                subst
                  (λ (o : Option RoutineDeliveryEntry).
                    Follows (d == day && str_eq i id) (routine_entry day id j) o)
                  (sym (e ∙ rw at_day refl))
                  (subst (λ (b : Bool). Follows b (routine_entry day id j) (entry_after day id r j))
                    (sym (rw (at_day, at_id) refl)) own')
            | inr differs ↦ kept_by _ _ _ (
                e
                ∙ rw at_day (
                    subst (λ (n : ℕ). entry_after n id r j ≡ routine_entry n id j) day_eq
                      (other id differs)))
          ]
    ]
  ]

pub map_same :
    (o : Option RoutineDeliveryEntry) → Option.map (λ (e : RoutineDeliveryEntry). e) o ≡ o
map_same none = refl
map_same (some e) = refl
