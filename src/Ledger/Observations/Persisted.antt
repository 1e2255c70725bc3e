-- ===== src/Ledger/Observations/Persisted.antt =====
-- What the loop of `record_observations` of src/chc_rental/event_store.py leaves behind.
use chc_rental.Base.{
  ℕ, ◌≡◌, refl, ◌∙◌, Bool, none, some, List, [], ◌∷◌, map, Option-cases, inl, inr, eq_refl,
  if◌then◌else◌,
}
use chc_rental.Base.Table.{find_where-append}
use chc_rental.Base.Raise.{ok}
use chc_rental.Ledger.{Ledger, SourceRun, EventType, ListingEventRow}
use chc_rental.Ledger.Observations.{
  ObservationInput, ObservationOutcome, is_event_of, event_type_of, new_event, record_new,
  new_outcome, persisted_outcome, persisted_event, record_item, record_items, returned,
}

module _ (b : Bool) (run : SourceRun) (now : ℕ) (i : ObservationInput) (l : Ledger) where
  pub record_item-fresh :
      persisted_event run.run_id i l ≡ none
      → record_item b run now i l ≡ (new_outcome b run i l, record_new b run now i l)
  unfolding record_item
  record_item-fresh e = rw (e, record_item) refl

  pub record_item-old :
      (e : ListingEventRow)
      → persisted_event run.run_id i l ≡ some e
      → record_item b run now i l ≡ (persisted_outcome i e.event_type, l)
  unfolding record_item
  record_item-old e at_e = rw (at_e, record_item) refl

-- The run has an event of the item, of type `t`.
abbrev pub Has : SourceRun → Ledger → ObservationInput → EventType → Type 0
Has run l i t =
    (e : ListingEventRow) × (persisted_event run.run_id i l ≡ some e) × (e.event_type ≡ t)

event-added :
    (b : Bool) (run : SourceRun) (now : ℕ) (i j : ObservationInput) (l : Ledger)
    → persisted_event run.run_id j (record_new b run now i l)
      ≡ elim (persisted_event run.run_id j l) [
        | none ↦
            if is_event_of run.run_id j (new_event run i now (event_type_of b run.query_id i l))
            then some (new_event run i now (event_type_of b run.query_id i l))
            else none
        | some e ↦ some e
      ]
unfolding persisted_event record_new
event-added b run now i j l = find_where-append (is_event_of run.run_id j) l.listing_events _

module _ (b : Bool) (run : SourceRun) (now : ℕ) where
  record_item-Has :
      (i : ObservationInput) (l : Ledger)
      → Has run (record_item b run now i l).1 i (record_item b run now i l).0.event_type
  record_item-Has i l = elim (Option-cases (persisted_event run.run_id i l)) [
    | inl fresh ↦ rw (record_item-fresh b run now i l fresh) (
      new_event run i now (event_type_of b run.query_id i l),
      event-added b run now i i l
          ∙ rw (fresh, eq_refl run.run_id, eq_refl i.identity_key, eq_refl i.version_hash) refl,
      refl,
    )
    | inr (e, at_e) ↦ rw (record_item-old b run now i l e at_e) (e, at_e, refl)
  ]

  record_item-keeps :
      (i j : ObservationInput) (t : EventType) (l : Ledger)
      → Has run l i t
      → Has run (record_item b run now j l).1 i t
  record_item-keeps i j t l (d, at_d, type_d) =
      elim (Option-cases (persisted_event run.run_id j l)) [
        | inl fresh ↦
            rw (record_item-fresh b run now j l fresh)
              (d, event-added b run now j i l ∙ rw at_d refl, type_d)
        | inr (e, at_e) ↦ rw (record_item-old b run now j l e at_e) (d, at_d, type_d)
      ]

  record_items-keeps :
      (items : List ObservationInput) (i : ObservationInput) (t : EventType) (l : Ledger)
      → Has run l i t
      → Has run (record_items b run now items l).1 i t
  unfolding record_items
  record_items-keeps [] i t l h = h
  record_items-keeps (j ∷ items) i t l h =
      record_items-keeps items i t (record_item b run now j l).1 (record_item-keeps i j t l h)

-- The outcomes are those of the items, one by one, and the run has the events.
abbrev pub Persisted : SourceRun → Ledger → List ObservationInput → List ObservationOutcome → Type 0
Persisted run l [] [] = Unit
Persisted run l [] (o ∷ os) = ⊥
Persisted run l (i ∷ items) [] = ⊥
Persisted run l (i ∷ items) (o ∷ os) = Has run l i o.event_type × Persisted run l items os

pub record_items-Persisted :
    (b : Bool) (run : SourceRun) (now : ℕ) (items : List ObservationInput) (l : Ledger)
    → Persisted run (record_items b run now items l).1 items (record_items b run now items l).0
unfolding record_items
record_items-Persisted b run now [] l = tt
record_items-Persisted b run now (i ∷ items) l =
    let l' = (record_item b run now i l).1 in
    (
      record_items-keeps b run now items i _ l' (record_item-Has b run now i l),
      record_items-Persisted b run now items l',
    )

-- With every event there already, nothing is written.
pub replay_items :
    (b : Bool) (run : SourceRun) (now : ℕ) (items : List ObservationInput)
    (outcomes : List ObservationOutcome) (l : Ledger)
    → Persisted run l items outcomes
    → ((record_items b run now items l).1 ≡ l)
      × (map (λ o. o.event_type) (record_items b run now items l).0
          ≡ map (λ o. o.event_type) outcomes)
unfolding record_items
replay_items b run now [] [] l h = (refl, refl)
replay_items b run now (i ∷ items) (o ∷ outcomes) l ((e, at_e, type_e), h) =
    let rest = replay_items b run now items outcomes l h in
    rw (record_item-old b run now i l e at_e) (rest.0, rw (type_e, rest.1) refl)
replay_items b run now [] (o ∷ outcomes) l h = absurd h
replay_items b run now (i ∷ items) [] l h = absurd h

-- Runs and scopes are the same.
abbrev SameTables : Ledger → Ledger → Type 0
SameTables l l' = (l'.source_runs ≡ l.source_runs) × (l'.query_scopes ≡ l.query_scopes)

pub record_item-tables :
    (b : Bool) (run : SourceRun) (now : ℕ) (i : ObservationInput) (l : Ledger)
    → SameTables l (record_item b run now i l).1
record_item-tables b run now i l = elim (Option-cases (persisted_event run.run_id i l)) [
  | inl fresh ↦ rw (record_item-fresh b run now i l fresh) (unfold record_new in (refl, refl))
  | inr (d, at_d) ↦ rw (record_item-old b run now i l d at_d) (refl, refl)
]

pub record_items-tables :
    (b : Bool) (run : SourceRun) (now : ℕ) (items : List ObservationInput) (l : Ledger)
    → SameTables l (record_items b run now items l).1
unfolding record_items
record_items-tables b run now [] l = (refl, refl)
record_items-tables b run now (i ∷ items) l =
    let one = record_item-tables b run now i l in
    let rest = record_items-tables b run now items (record_item b run now i l).1 in
    (rest.0 ∙ one.0, rest.1 ∙ one.1)

pub returned_eq :
    (r : List ObservationOutcome × Ledger) (outcomes : List ObservationOutcome) (l : Ledger)
    → returned r ≡ (ok outcomes, l)
    → r ≡ (outcomes, l)
returned_eq r outcomes l h = cc
