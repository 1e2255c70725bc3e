-- ===== src/Planner/Scopes.antt =====
-- The planned scopes: one for an id, made of its query.
use chc_rental.Base.{
  String, ◌≡◌, refl, ◌∙◌, Bool, false, ◌||◌, List, [], ◌∷◌, map, arith, Bool-cases, Option-cases,
  if-keeps, inl, inr, str_eq, eq_iff,
}
use chc_rental.Base.Table.{any_where, All, ordered_by, insert_ordered}
use chc_rental.Base.Table.Distinct.{Distinct}
use chc_rental.Base.Table.Ordered.{any_where-insert_ordered, any_where-ordered_by}
use chc_rental.Models.{Search, active_searches, AllowlistEntry}
use chc_rental.Planner.{SourceQuery, given_state}
use chc_rental.Planner.Incremental.{
  Hashing, QueryWatch, PlannedSourceQuery, Scopes, Planned, given_id, add_watch, plan_watch,
  plan_search, plan_searches, plan_people, with_sorted_watches, id_before,
}

-- A scope has the query that its id is made of.
abbrev pub IsOwn : Hashing → PlannedSourceQuery → Type 0
IsOwn h p = (p.query_json ≡ h.canonical p.query) × (p.query_id ≡ h.query_id_of p.query_json)

abbrev pub same_id : PlannedSourceQuery → PlannedSourceQuery → Bool
same_id p q = str_eq p.query_id q.query_id

add_watch-ids :
    (r : PlannedSourceQuery) (id : String) (q : SourceQuery) (c : String) (w : QueryWatch)
    (scopes : Scopes)
    → any_where (same_id r) (add_watch id q c w scopes)
      ≡ (str_eq r.query_id id || any_where (same_id r) scopes)
unfolding any_where add_watch
add_watch-ids r id q c w [] = ground arith
add_watch-ids r id q c w (p ∷ scopes) = ground (
  arith,
  eq_iff p.query_id id,
  eq_iff r.query_id p.query_id,
  eq_iff r.query_id id,
  add_watch-ids r id q c w scopes,
)

add_watch-Distinct :
    (id : String) (q : SourceQuery) (c : String) (w : QueryWatch) (scopes : Scopes)
    → Distinct same_id scopes
    → Distinct same_id (add_watch id q c w scopes)
unfolding add_watch any_where
add_watch-Distinct id q c w [] d = (refl, tt)
add_watch-Distinct id q c w (p ∷ scopes) d = elim (Bool-cases (str_eq p.query_id id)) [
  | inl same ↦ rw same (d.0, d.1)
  | inr other ↦ rw other (
    add_watch-ids p id q c w scopes ∙ rw (other, d.0) refl,
    add_watch-Distinct id q c w scopes d.1,
  )
]

add_watch-Own :
    (h : Hashing) (q : SourceQuery) (w : QueryWatch) (scopes : Scopes)
    → All (IsOwn h) scopes
    → All (IsOwn h) (add_watch (h.query_id_of (h.canonical q)) q (h.canonical q) w scopes)
unfolding add_watch
add_watch-Own h q w [] own = ((refl, refl), tt)
add_watch-Own h q w (p ∷ scopes) own =
    if-keeps (All (IsOwn h)) (str_eq p.query_id (h.query_id_of (h.canonical q))) _ _ (own.0, own.1)
      (own.0, add_watch-Own h q w scopes own.1)

-- One scope for an id, made of its query.
abbrev pub IsSound : Hashing → Planned → Type 0
IsSound h g = Distinct same_id g.0 × All (IsOwn h) g.0

module _ (h : Hashing) where
  search-IsSound :
      (person : AllowlistEntry) (u : Search) (g : Planned)
      → IsSound h g
      → IsSound h (plan_search h person u g)
  unfolding plan_search
  search-IsSound person u g sound = elim (Option-cases (given_state u)) [
    | inl e ↦ rw (e, plan_search) sound
    | inr (t, e) ↦ elim (Option-cases (given_id u)) [
      | inl e' ↦ rw (e, e', plan_search) sound
      | inr (i, e') ↦
          rw (e, e', plan_search)
            (unfold plan_watch in
              (add_watch-Distinct _ _ _ _ g.0 sound.0, add_watch-Own h _ _ g.0 sound.1))
    ]
  ]

  searches-IsSound :
      (person : AllowlistEntry) (searches : List Search) (g : Planned)
      → IsSound h g
      → IsSound h (plan_searches h person searches g)
  unfolding plan_searches
  searches-IsSound person [] g sound = sound
  searches-IsSound person (u ∷ searches) g sound =
      searches-IsSound person searches (plan_search h person u g) (search-IsSound person u g sound)

  pub people-IsSound :
      (people : List AllowlistEntry) (g : Planned)
      → IsSound h g
      → IsSound h (plan_people h people g)
  unfolding plan_people
  people-IsSound [] g sound = sound
  people-IsSound (p ∷ people) g sound =
      people-IsSound people _ (searches-IsSound p (active_searches p.profile) g sound)

sorted-ids :
    (r : PlannedSourceQuery) (scopes : Scopes)
    → any_where (same_id r) (map with_sorted_watches scopes) ≡ any_where (same_id r) scopes
unfolding any_where
sorted-ids r [] = refl
sorted-ids r (p ∷ scopes) = rw (sorted-ids r scopes) refl

pub sorted-Distinct :
    (scopes : Scopes) → Distinct same_id scopes → Distinct same_id (map with_sorted_watches scopes)
sorted-Distinct [] d = tt
sorted-Distinct (p ∷ scopes) d = (sorted-ids p scopes ∙ d.0, sorted-Distinct scopes d.1)

pub sorted-Own :
    (h : Hashing) (scopes : Scopes)
    → All (IsOwn h) scopes
    → All (IsOwn h) (map with_sorted_watches scopes)
sorted-Own h [] own = tt
sorted-Own h (p ∷ scopes) own = (own.0, sorted-Own h scopes own.1)

insert-Distinct :
    (r : PlannedSourceQuery) (scopes : Scopes)
    → any_where (same_id r) scopes ≡ false
    → Distinct same_id scopes
    → Distinct same_id (insert_ordered id_before r scopes)
unfolding insert_ordered any_where
insert-Distinct r [] new d = (refl, tt)
insert-Distinct r (p ∷ scopes) new d =
    if-keeps (Distinct same_id) (id_before r p) _ _ (new, d)
      (
        any_where-insert_ordered (same_id p) id_before r scopes
            ∙ ground (arith, d.0, eq_iff p.query_id r.query_id, eq_iff r.query_id p.query_id),
        insert-Distinct r scopes (ground arith) d.1,
      )

pub ordered-Distinct :
    (scopes : Scopes) → Distinct same_id scopes → Distinct same_id (ordered_by id_before scopes)
unfolding ordered_by
ordered-Distinct [] d = tt
ordered-Distinct (p ∷ scopes) d =
    insert-Distinct p (ordered_by id_before scopes)
      (any_where-ordered_by (same_id p) id_before scopes ∙ d.0) (ordered-Distinct scopes d.1)
