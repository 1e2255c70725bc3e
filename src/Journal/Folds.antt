-- ===== src/Journal/Folds.antt =====
-- What one more line does to the entries that a journal folds to.
use chc_rental.Base.{
  ℕ, String, ◌≡◌, refl, ◌∙◌, Bool, true, false, Option, none, some, List, [], ◌∷◌, ◌++◌, arith,
  Bool-cases, Option-cases, inl, inr, ◌⊎◌, ◌==◌, str_eq, eq_iff, if◌then◌else◌,
}
use mathlib.Core.Option
use chc_rental.Base.Table.{
  find_where, update_where, any_where, find_where-update_where, find_where-append, find_where-holds,
}
use chc_rental.Base.Table.Distinct.{find_where-any_where, any_where-find_where}
use chc_rental.Base.Raise.{Result, ok, err}
use chc_rental.Journal.{
  JournalRow, staged, moved, annotated, RoutineStatus, RoutineDeliveryEntry, Payload, PayloadPatch,
  has_attempt, new_entry, moved_entry, patched_entry, fold_event, fold_from, fold_routine_events,
}
use chc_rental.Journal.Store.{
  Journal, rows_of, append_to, routine_entry, atomic_append, read_back, then_read, write,
}

fold_from-append :
    (rows : List JournalRow) (r : JournalRow) (attempts : List RoutineDeliveryEntry)
    → fold_from (rows ++ r ∷ []) attempts ≡ fold_event r (fold_from rows attempts)
unfolding fold_from
fold_from-append [] r attempts = refl
fold_from-append (q ∷ rows) r attempts = fold_from-append rows r (fold_event q attempts)

rows_of-append_to :
    (day d : ℕ) (r : JournalRow) (days : List (ℕ × List JournalRow))
    → rows_of day (append_to d r days)
      ≡ (if d == day then rows_of day days ++ r ∷ [] else rows_of day days)
unfolding rows_of append_to
rows_of-append_to day d r [] = ground arith
rows_of-append_to day d r ((e, rows) ∷ days) = ground (arith, rows_of-append_to day d r days)

-- The entry of an id after one event more.
abbrev pub entry_after : ℕ → String → JournalRow → Journal → Option RoutineDeliveryEntry
entry_after day id r j =
    find_where (has_attempt id) (fold_event r (fold_routine_events (rows_of day j.days)))

pub appended :
    (day d : ℕ) (id : String) (r : JournalRow) (j : Journal) (faults : List Bool)
    → routine_entry day id (record { days = append_to d r j.days; faults = faults })
      ≡ (if d == day then entry_after day id r j else routine_entry day id j)
unfolding routine_entry fold_routine_events
appended day d id r j faults = elim (Bool-cases (d == day)) [
  | inl same ↦
      rw (rows_of-append_to day d r j.days, same)
        (rw (fold_from-append (rows_of day j.days) r []) refl)
  | inr other ↦ rw (rows_of-append_to day d r j.days, other) refl
]

-- A write happens or does not.
data Wrote (day d : ℕ) (id : String) (r : JournalRow) (j : Journal) : Journal → Type 0 where
  lost : (j' : Journal) → routine_entry day id j' ≡ routine_entry day id j → Wrote day d id r j j'
  kept :
      (j' : Journal)
      → routine_entry day id j'
        ≡ (if d == day then entry_after day id r j else routine_entry day id j)
      → Wrote day d id r j j'

append-Wrote :
    (day d : ℕ) (id : String) (r : JournalRow) (j : Journal)
    → Wrote day d id r j (atomic_append d r j).1
unfolding atomic_append routine_entry
append-Wrote day d id r j = by_faults j.faults
  where
    by_faults :
        (faults : List Bool)
        → Wrote day d id r j (atomic_append d r (record j { faults = faults })).1
    by_faults [] = kept _ (appended day d id r j [])
    by_faults (false ∷ faults) = kept _ (appended day d id r j faults)
    by_faults (true ∷ faults) = lost (record j { faults = faults }) refl

read-same : (d : ℕ) (i : String) (p : Result (Unit {0}) × Journal) → (then_read d i p).1 ≡ p.1
unfolding read_back
read-same d i (ok u, j) = elim (Option-cases (routine_entry d i j)) [
  | inl e ↦ rw (e, read_back) refl
  | inr (x, e) ↦ rw (e, read_back) refl
]
read-same d i (err e, j) = refl

-- The two ways that a write leaves the entry of an id.
pub write-cases :
    (day d : ℕ) (id i : String) (r : JournalRow) (j : Journal)
    → (routine_entry day id (write d i r j).1 ≡ routine_entry day id j)
      ⊎ (routine_entry day id (write d i r j).1
          ≡ (if d == day then entry_after day id r j else routine_entry day id j))
unfolding write
write-cases day d id i r j = elim (append-Wrote day d id r j) [
  | lost _ e ↦ inl (rw (read-same d i (atomic_append d r j)) e)
  | kept _ e ↦ inr (rw (read-same d i (atomic_append d r j)) e)
]

-- The entry of an id after a change of the entries of an id.
changed_entry :
    (f : RoutineDeliveryEntry → RoutineDeliveryEntry) (id i : String)
    (attempts : List RoutineDeliveryEntry)
    → ((e : RoutineDeliveryEntry) → has_attempt i e ≡ true → (f e).attempt_id ≡ e.attempt_id)
    → find_where (has_attempt id) (update_where (has_attempt i) f attempts)
      ≡ Option.map (λ e. if str_eq i id then f e else e) (find_where (has_attempt id) attempts)
changed_entry f id i attempts same =
    find_where-update_where (has_attempt id) (has_attempt i) f attempts
      (λ e hit. rw (same e hit) refl)
    ∙ elim (Option-cases (find_where (has_attempt id) attempts)) [
      | inl e ↦ rw e refl
      | inr (x, e) ↦
          let own = find_where-holds (has_attempt id) attempts x e in
          rw e (ground (arith, own, eq_iff x.attempt_id id, eq_iff x.attempt_id i, eq_iff i id))
    ]

-- The entry of an id after an event of each kind.
pub moved-entry :
    (id i : String) (t : RoutineStatus) (now : ℕ) (m c e : Option String)
    (attempts : List RoutineDeliveryEntry)
    → find_where (has_attempt id) (fold_event (moved i t now m c e) attempts)
      ≡ Option.map
          (λ x. if str_eq i id then moved_entry t now m c e x else x)
          (find_where (has_attempt id) attempts)
unfolding fold_event
moved-entry id i t now m c e attempts = changed_entry _ id i attempts (λ x hit. refl)

pub annotated-entry :
    (id i : String) (p : PayloadPatch) (attempts : List RoutineDeliveryEntry)
    → find_where (has_attempt id) (fold_event (annotated i p) attempts)
      ≡ Option.map
          (λ x. if str_eq i id then patched_entry p x else x)
          (find_where (has_attempt id) attempts)
unfolding fold_event
annotated-entry id i p attempts = changed_entry _ id i attempts (λ x hit. refl)

there_found :
    (q : RoutineDeliveryEntry → Bool) (attempts : List RoutineDeliveryEntry)
    → any_where q attempts ≡ true
    → (x : RoutineDeliveryEntry) × (find_where q attempts ≡ some x)
there_found q attempts there = elim (Option-cases (find_where q attempts)) [
  | inl gone ↦
      let absent = any_where-find_where q attempts gone in
      absurd (let wrong : true ≡ false = cc in ground arith)
  | inr found ↦ found
]

pub staged-entry :
    (id i key : String) (t now : ℕ) (p : Payload) (attempts : List RoutineDeliveryEntry)
    → find_where (has_attempt id) (fold_event (staged i key t now p) attempts) ≡ (
        if str_eq i id
        then some (new_entry i key t now p)
        else find_where (has_attempt id) attempts)
unfolding fold_event
staged-entry id i key t now p attempts = elim (Bool-cases (any_where (has_attempt i) attempts)) [
  | inl there ↦ rw there (
      changed_entry (λ _. new_entry i key t now p) id i attempts
        (λ x hit. ground (arith, eq_iff x.attempt_id i))
      ∙ replaced there)
  | inr missing ↦
      rw missing
        (find_where-append (has_attempt id) attempts (new_entry i key t now p) ∙ added missing)
]
  where
    new : RoutineDeliveryEntry
    new = new_entry i key t now p

    replaced :
        any_where (has_attempt i) attempts ≡ true
        → Option.map (λ e. if str_eq i id then new else e) (find_where (has_attempt id) attempts)
          ≡ (if str_eq i id then some new else find_where (has_attempt id) attempts)
    replaced there = elim (Bool-cases (str_eq i id)) [
      | inl same ↦
          let e : i ≡ id = (eq_iff i id).0 same in
          let (x, found) = there_found (has_attempt id) attempts (rw e at there) in
          rw (found, same) refl
      | inr other ↦ elim (Option-cases (find_where (has_attempt id) attempts)) [
        | inl e ↦ rw (e, other) refl
        | inr (x, e) ↦ rw (e, other) refl
      ]
    ]

    added :
        any_where (has_attempt i) attempts ≡ false
        → elim (find_where (has_attempt id) attempts) as (λ o. Option RoutineDeliveryEntry) [
          | none ↦ if has_attempt id new then some new else none
          | some x ↦ some x
        ]
          ≡ (if str_eq i id then some new else find_where (has_attempt id) attempts)
    added missing = elim (Bool-cases (str_eq i id)) [
      | inl same ↦
          let e : i ≡ id = (eq_iff i id).0 same in
          let gone = find_where-any_where (has_attempt i) attempts missing in
          let at_id : find_where (has_attempt id) attempts ≡ none = rw e at gone in
          rw (at_id, same) refl
      | inr other ↦ elim (Option-cases (find_where (has_attempt id) attempts)) [
        | inl e ↦ rw (e, other) refl
        | inr (x, e) ↦ rw (e, other) refl
      ]
    ]
