-- ===== src/Journal/Calls.antt =====
-- What each call on the journal makes of the entry of an attempt.
use chc_rental.Base.{
  ℕ, String, ◌≡◌, refl, sym, ◌∙◌, true, ◌&&◌, ◌||◌, Option, none, some, Bool-cases, Option-cases,
  inl, inr, ◌==◌, str_eq, eq_iff,
}
use mathlib.Core.Path.{subst}
use chc_rental.Journal.{
  RoutineStatus, prepared, sending, accepted, failed, uncertain, Payload, staged, moved, annotated,
  PayloadPatch, RoutineDeliveryEntry, new_entry, moved_entry, patched_entry, fold_routine_events,
}
use chc_rental.Journal.Store.{
  Journal, Attempt, Target, to_sending, to_accepted, to_failed, to_uncertain, status_eq, Receipt,
  rows_of, routine_entry, read_back, write, prepare_from, prepare_routine_delivery, transition_from,
  transition_routine_delivery, annotate_from, annotate_routine_delivery, is_empty,
}
use chc_rental.Journal.Folds.{moved-entry, annotated-entry, staged-entry}
use chc_rental.Journal.Machine.{
  Call, Follows, Moves, accepts, annotate, doubts, first_staged, is_for, kept, kept_by, map_same,
  moved_on, noted, prepare, refuses, run, sends, staged_again, transition, write-Follows,
}

read_back_lem : (d : ℕ) (i : String) (j : Journal) → (read_back d i j).1 ≡ j
unfolding read_back
read_back_lem d i j = elim (Option-cases (routine_entry d i j)) [
  | inl e ↦ rw (e, read_back) refl
  | inr (x, e) ↦ rw (e, read_back) refl
]

-- A line of each kind, whose own entry is known.
module _ (day d : ℕ) (id i : String) (j : Journal) where
  stage-Follows :
      (key : String) (t now : ℕ) (p : Payload)
      → Follows true (routine_entry d i j) (some (new_entry i key t now p))
      → Follows
          (d == day && str_eq i id)
          (routine_entry day id j)
          (routine_entry day id (write d i (staged i key t now p) j).1)
  unfolding routine_entry
  stage-Follows key t now p own =
      write-Follows d i (staged i key t now p) j day id
        (subst (λ o. Follows true (routine_entry d i j) o)
          (sym (
            staged-entry i i key t now p (fold_routine_events (rows_of d j.days))
            ∙ rw ((eq_iff i i).1 refl) refl))
          own)
        (λ id' differs.
          staged-entry id' i key t now p (fold_routine_events (rows_of d j.days)) ∙ rw differs refl)

  move-Follows :
      (e : RoutineDeliveryEntry) (t : RoutineStatus) (now : ℕ) (m c x : Option String)
      → routine_entry d i j ≡ some e
      → Moves e.status t
      → Follows
          (d == day && str_eq i id)
          (routine_entry day id j)
          (routine_entry day id (write d i (moved i t now m c x) j).1)
  unfolding routine_entry
  move-Follows e t now m c x found moves =
      write-Follows d i (moved i t now m c x) j day id
        (subst (λ o. Follows true (routine_entry d i j) o)
          (sym (
            moved-entry i i t now m c x (fold_routine_events (rows_of d j.days))
            ∙ rw ((eq_iff i i).1 refl, found) refl))
          (subst (λ o. Follows true o (some (moved_entry t now m c x e))) (sym found)
            (moved_on e (moved_entry t now m c x e) moves refl)))
        (λ id' differs.
          moved-entry id' i t now m c x (fold_routine_events (rows_of d j.days))
          ∙ rw differs (map_same _))

  note-Follows :
      (e : RoutineDeliveryEntry) (p : PayloadPatch)
      → routine_entry d i j ≡ some e
      → (status_eq e.status accepted || status_eq e.status uncertain) ≡ true
      → Follows
          (d == day && str_eq i id)
          (routine_entry day id j)
          (routine_entry day id (write d i (annotated i p) j).1)
  unfolding routine_entry
  note-Follows e p found settled =
      write-Follows d i (annotated i p) j day id
        (subst (λ o. Follows true (routine_entry d i j) o)
          (sym (
            annotated-entry i i p (fold_routine_events (rows_of d j.days))
            ∙ rw ((eq_iff i i).1 refl, found) refl))
          (subst (λ o. Follows true o (some (patched_entry p e))) (sym found)
            (noted e (patched_entry p e) settled refl refl)))
        (λ id' differs.
          annotated-entry id' i p (fold_routine_events (rows_of d j.days))
          ∙ rw differs (map_same _))

abbrev fresh : Attempt → ℕ → RoutineDeliveryEntry
fresh a now = new_entry a.attempt_id a.attempt_key a.telegram_id now a.payload

-- The three methods.
prepare_from-Follows :
    (day : ℕ) (id : String) (j : Journal) (a : Attempt) (now : ℕ) (o : Option RoutineDeliveryEntry)
    → routine_entry a.payload.local_date a.attempt_id j ≡ o
    → Follows
        (a.payload.local_date == day && str_eq a.attempt_id id)
        (routine_entry day id j)
        (routine_entry day id (prepare_from a now o j).1)
unfolding prepare_from
prepare_from-Follows day id j a now none missing =
    stage-Follows day a.payload.local_date id a.attempt_id j a.attempt_key a.telegram_id now
      a.payload
      (subst (λ o. Follows true o (some (fresh a now))) (sym missing)
        (first_staged (fresh a now) refl))
prepare_from-Follows day id j a now (some e) found = by_status e.status found
  where
    by_status :
        (status : RoutineStatus)
        → routine_entry a.payload.local_date a.attempt_id j ≡ some (record e { status = status })
        → Follows
            (a.payload.local_date == day && str_eq a.attempt_id id)
            (routine_entry day id j)
            (routine_entry day id (prepare_from a now (some (record e { status = status })) j).1)
    by_status prepared at =
        kept_by _ _ _ (rw (read_back_lem a.payload.local_date a.attempt_id j) refl)
    by_status sending at =
        move-Follows day a.payload.local_date id a.attempt_id j _ uncertain now none none _ at
          doubts
    by_status accepted at = kept _ _
    by_status failed at =
        stage-Follows day a.payload.local_date id a.attempt_id j a.attempt_key a.telegram_id now
          a.payload
          (subst (λ o. Follows true o (some (fresh a now))) (sym at)
            (staged_again (record e { status = failed }) (fresh a now) refl refl))
    by_status uncertain at = kept _ _

transition_from-Follows :
    (day : ℕ) (id : String) (j : Journal) (d : ℕ) (i : String) (t : Target) (now : ℕ) (r : Receipt)
    (o : Option RoutineDeliveryEntry)
    → routine_entry d i j ≡ o
    → Follows
        (d == day && str_eq i id)
        (routine_entry day id j)
        (routine_entry day id (transition_from d i t now r o j).1)
unfolding transition_from
transition_from-Follows day id j d i t now r none missing = kept _ _
transition_from-Follows day id j d i t now r (some e) found = by_status t e.status found
  where
    by_status :
        (t : Target) (status : RoutineStatus)
        → routine_entry d i j ≡ some (record e { status = status })
        → Follows (d == day && str_eq i id) (routine_entry day id j) (
            routine_entry day id
              (transition_from d i t now r (some (record e { status = status })) j).1)
    by_status to_sending prepared at = move-Follows day d id i j _ sending now _ _ _ at sends
    by_status to_sending _ at = kept _ _
    by_status to_accepted sending at = move-Follows day d id i j _ accepted now _ _ _ at accepts
    by_status to_accepted _ at = kept _ _
    by_status to_failed sending at = move-Follows day d id i j _ failed now _ _ _ at refuses
    by_status to_failed _ at = kept _ _
    by_status to_uncertain sending at = move-Follows day d id i j _ uncertain now _ _ _ at doubts
    by_status to_uncertain _ at = kept _ _

annotate_from-Follows :
    (day : ℕ) (id : String) (j : Journal) (d : ℕ) (i : String) (p : PayloadPatch)
    (o : Option RoutineDeliveryEntry)
    → routine_entry d i j ≡ o
    → Follows
        (d == day && str_eq i id)
        (routine_entry day id j)
        (routine_entry day id (annotate_from d i p o j).1)
unfolding annotate_from
annotate_from-Follows day id j d i p none missing = kept _ _
annotate_from-Follows day id j d i p (some e) found = elim (Bool-cases (is_empty p)) [
  | inl nothing ↦ rw nothing (kept _ _)
  | inr something ↦
      elim (Bool-cases (status_eq e.status accepted || status_eq e.status uncertain)) [
        | inl settled ↦ rw (something, settled) (note-Follows day d id i j e p found settled)
        | inr unsettled ↦ rw (something, unsettled) (kept _ _)
      ]
]

-- Every call, whatever it returns and whichever writes fail, makes of the entry of an attempt on a
-- day one of the steps of `Follows`: a call for another attempt or day leaves the entry as it was; a
-- call for the attempt stages it if it has none or if it failed, moves it from prepared to sending or
-- from sending to accepted, failed or uncertain with its payload as it was, or annotates it while it
-- is accepted or uncertain, when its status and its message id stay.
pub call-Follows :
    (c : Call) (j : Journal) (day : ℕ) (id : String)
    → Follows (is_for day id c) (routine_entry day id j) (routine_entry day id (run c j))
unfolding run prepare_routine_delivery transition_routine_delivery annotate_routine_delivery
call-Follows (prepare a now) j day id = prepare_from-Follows day id j a now _ refl
call-Follows (transition d i t now r) j day id = transition_from-Follows day id j d i t now r _ refl
call-Follows (annotate d i p) j day id = annotate_from-Follows day id j d i p _ refl
