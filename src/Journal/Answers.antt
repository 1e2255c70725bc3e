-- ===== src/Journal/Answers.antt =====
-- What the methods on the journal answer, and the entry of their attempt afterwards.
use chc_rental.Base.{
  ℕ, String, ◌≡◌, refl, sym, ◌∙◌, Bool, true, false, ◌||◌, Option, none, some, List, [], ◌∷◌,
  ==_iff, eq_iff,
}
use mathlib.Core.Path.{subst}
use chc_rental.Base.Table.{any_where}
use chc_rental.Base.Raise.{ok, err, Error, alert_store}
use chc_rental.Journal.{
  RoutineStatus, prepared, sending, accepted, failed, uncertain, JournalRow, staged, moved,
  RoutineDeliveryEntry, new_entry, moved_entry, fold_routine_events,
}
use chc_rental.Journal.Store.{
  Journal, Attempt, Target, to_sending, to_accepted, to_failed, to_uncertain, status_of, status_eq,
  allowed_from, Receipt, Answer, rows_of, append_to, routine_entry, atomic_append, read_back,
  then_read, write, prepare_from, prepare_routine_delivery, transition_from,
  transition_routine_delivery, interrupted,
}
use chc_rental.Journal.Folds.{entry_after, appended, moved-entry, staged-entry}

read_back-found :
    (d : ℕ) (i : String) (j : Journal) (e : RoutineDeliveryEntry)
    → routine_entry d i j ≡ some e
    → read_back d i j ≡ (ok e, j)
unfolding read_back
read_back-found d i j e found = rw (read_back, found) refl

-- One of the writes to come fails.
abbrev pub has_fault : Journal → Bool
has_fault j = any_where (λ lost. lost) j.faults

-- What a write of a line answers, when the line makes an entry of its own attempt.
pub data WriteAnswer (d : ℕ) (i : String) (e : RoutineDeliveryEntry) (j : Journal)
    : Answer → Type 0 where
  made :
      (j' : Journal)
      → routine_entry d i j' ≡ some e
      → (has_fault j' ≡ true → has_fault j ≡ true)
      → WriteAnswer d i e j (ok e, j')
  lost_ :
      (j' : Journal)
      → routine_entry d i j' ≡ routine_entry d i j
      → has_fault j ≡ true
      → WriteAnswer d i e j (err alert_store, j')

pub write-answer :
    (d : ℕ) (i : String) (r : JournalRow) (j : Journal) (e : RoutineDeliveryEntry)
    → entry_after d i r j ≡ some e
    → WriteAnswer d i e j (write d i r j)
unfolding write atomic_append routine_entry any_where
write-answer d i r j e own = by_faults j.faults
  where
    read :
        (before faults : List Bool)
        → (any_where (λ lost. lost) faults ≡ true → any_where (λ lost. lost) before ≡ true)
        → WriteAnswer d i e
            (record j { faults = before })
            (read_back d i (record { days = append_to d r j.days; faults = faults }))
    read before faults keep =
        let found : routine_entry d i (record { days = append_to d r j.days; faults = faults })
            ≡ some e =
          appended d d i r j faults ∙ rw ((==_iff d d).1 refl) own in
        subst (WriteAnswer d i e (record j { faults = before }))
          (sym (read_back-found d i _ e found)) (made _ found keep)

    by_faults :
        (faults : List Bool)
        → WriteAnswer d i e
            (record j { faults = faults })
            (then_read d i (atomic_append d r (record j { faults = faults })))
    by_faults [] = read [] [] (λ h. h)
    by_faults (false ∷ faults) = read (false ∷ faults) faults (λ h. h)
    by_faults (true ∷ faults) = lost_ (record j { faults = faults }) refl refl

move-answer :
    (d : ℕ) (i : String) (j : Journal) (e : RoutineDeliveryEntry) (t : RoutineStatus) (now : ℕ)
    (m c x : Option String)
    → routine_entry d i j ≡ some e
    → WriteAnswer d i (moved_entry t now m c x e) j (write d i (moved i t now m c x) j)
unfolding routine_entry
move-answer d i j e t now m c x found = write-answer d i _ j _ (
    moved-entry i i t now m c x (fold_routine_events (rows_of d j.days))
    ∙ rw ((eq_iff i i).1 refl, found) refl)

-- A transition of an attempt that stands where it may start.
pub transition-answer :
    (d : ℕ) (i : String) (j : Journal) (e : RoutineDeliveryEntry) (t : Target) (now : ℕ)
    (r : Receipt)
    → routine_entry d i j ≡ some e
    → e.status ≡ allowed_from t
    → WriteAnswer d i
        (moved_entry (status_of t) now r.telegram_message_id r.chat_id r.error e)
        j
        (transition_routine_delivery d i t now r j)
unfolding transition_routine_delivery transition_from
transition-answer d i j e t now r found from =
    rw found (by_target t from (move-answer d i j e (status_of t) now _ _ _ found))
  where
    by_target :
        (t : Target)
        → e.status ≡ allowed_from t
        → WriteAnswer d i
            (moved_entry (status_of t) now r.telegram_message_id r.chat_id r.error e)
            j
            (write d i (moved i (status_of t) now r.telegram_message_id r.chat_id r.error) j)
        → WriteAnswer d i
            (moved_entry (status_of t) now r.telegram_message_id r.chat_id r.error e)
            j
            (transition_from d i t now r (some e) j)
    by_target to_sending at w = rw at w
    by_target to_accepted at w = rw at w
    by_target to_failed at w = rw at w
    by_target to_uncertain at w = rw at w

-- An attempt that a message was handed over for, unless Telegram refused it.
unfoldable pub is_locked : Option RoutineDeliveryEntry → Bool
is_locked none = false
is_locked (some e) = elim e.status [
  | prepared ↦ false
  | failed ↦ false
  | sending ↦ true
  | accepted ↦ true
  | uncertain ↦ true
]

abbrev pub own_entry : Attempt → Journal → Option RoutineDeliveryEntry
own_entry a j = routine_entry a.payload.local_date a.attempt_id j

-- What `prepare_routine_delivery` answers: an error, if a write fails, with the entry as it was; a
-- settled attempt, which was locked; or an open attempt, which was open before.
pub data Prepares (a : Attempt) (j : Journal) : Answer → Type 0 where
  raised :
      (x : Error) (j' : Journal)
      → own_entry a j' ≡ own_entry a j
      → has_fault j ≡ true
      → Prepares a j (err x, j')
  settled :
      (e : RoutineDeliveryEntry) (j' : Journal)
      → own_entry a j' ≡ some e
      → (status_eq e.status accepted || status_eq e.status uncertain) ≡ true
      → is_locked (own_entry a j) ≡ true
      → Prepares a j (ok e, j')
  opened :
      (e : RoutineDeliveryEntry) (j' : Journal)
      → own_entry a j' ≡ some e
      → e.status ≡ prepared
      → is_locked (own_entry a j) ≡ false
      → (has_fault j' ≡ true → has_fault j ≡ true)
      → Prepares a j (ok e, j')

module _ (a : Attempt) (now : ℕ) (j : Journal) where
  stage-Prepares :
      is_locked (own_entry a j) ≡ false
      → Prepares a j (
          write a.payload.local_date a.attempt_id
            (staged a.attempt_id a.attempt_key a.telegram_id now a.payload)
            j)
  unfolding routine_entry
  stage-Prepares free = of_write (
      write-answer a.payload.local_date a.attempt_id _ j
        (new_entry a.attempt_id a.attempt_key a.telegram_id now a.payload)
        (staged-entry a.attempt_id a.attempt_id a.attempt_key a.telegram_id now a.payload
            (fold_routine_events (rows_of a.payload.local_date j.days))
          ∙ rw ((eq_iff a.attempt_id a.attempt_id).1 refl) refl))
    where
      of_write :
          {w : Answer}
          → WriteAnswer a.payload.local_date a.attempt_id
              (new_entry a.attempt_id a.attempt_key a.telegram_id now a.payload)
              j
              w
          → Prepares a j w
      of_write (made j' e keep) = opened _ j' e refl free keep
      of_write (lost_ j' e fault) = raised alert_store j' e fault

  recovered :
      (e : RoutineDeliveryEntry) {w : Answer}
      → WriteAnswer a.payload.local_date a.attempt_id
          (moved_entry uncertain now none none (some interrupted) e)
          j
          w
      → is_locked (own_entry a j) ≡ true
      → Prepares a j w
  recovered e (made j' at keep) locked = settled _ j' at refl locked
  recovered e (lost_ j' at fault) locked = raised alert_store j' at fault

  prepare_from-Prepares :
      (o : Option RoutineDeliveryEntry) → own_entry a j ≡ o → Prepares a j (prepare_from a now o j)
  unfolding prepare_from is_locked
  prepare_from-Prepares none missing = stage-Prepares (rw missing refl)
  prepare_from-Prepares (some e) found = by_status e.status found
    where
      by_status :
          (status : RoutineStatus)
          → own_entry a j ≡ some (record e { status = status })
          → Prepares a j (prepare_from a now (some (record e { status = status })) j)
      by_status prepared at =
          subst (Prepares a j) (sym (read_back-found _ _ j _ at))
            (opened _ j at refl (rw at refl) (λ h. h))
      by_status sending at =
          recovered (record e { status = sending })
            (move-answer _ _ j _ uncertain now none none _ at) (rw at refl)
      by_status accepted at = settled _ j at refl (rw at refl)
      by_status failed at = stage-Prepares (rw at refl)
      by_status uncertain at = settled _ j at refl (rw at refl)

  pub prepare-Prepares : Prepares a j (prepare_routine_delivery a now j)
  unfolding prepare_routine_delivery
  prepare-Prepares = prepare_from-Prepares _ refl
