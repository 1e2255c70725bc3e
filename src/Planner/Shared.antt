-- ===== src/Planner/Shared.antt =====
-- Who watches a planned scope.
use mathlib.Core.Path.{subst}
use mathlib.Core.List.{Memᴰ}
use mathlib.Core.List.Memᴰ
use chc_rental.Base.{
  ℕ, String, ◌≡◌, refl, ◌∙◌, Bool, true, ◌&&◌, some, List, [], ◌∷◌, map, arith, Option-cases, inl,
  inr, str_eq, eq_iff, ◌==◌,
}
use chc_rental.Base.Table.{any_where, All, ordered_by}
use chc_rental.Base.Table.Distinct.{any_where-append, Distinct}
use chc_rental.Base.Table.Ordered.{any_where-ordered_by, All-ordered_by}
use chc_rental.Text.{Text}
use chc_rental.Models.{Search, active_searches, AllowlistEntry, Allowlist, active_people}
use chc_rental.Planner.{SourceQuery, given_state}
use chc_rental.Planner.Incremental.{
  Hashing, QueryWatch, PlannedSourceQuery, Scopes, Planned, zillow_query, given_id, add_watch,
  watch_of, plan_watch, plan_search, plan_searches, plan_people, planned_scopes,
  with_sorted_watches, id_before, watch_before,
}
use chc_rental.Planner.Scopes.{
  IsOwn, same_id, people-IsSound, sorted-Distinct, sorted-Own, ordered-Distinct,
}

-- The watch of a person and a search.
abbrev pub is_watch : ℕ → String → QueryWatch → Bool
is_watch telegram_id search_id w = w.telegram_id == telegram_id && str_eq w.search_id search_id

-- The scope of an id, watched by a person's search.
abbrev pub is_watched : String → ℕ → String → PlannedSourceQuery → Bool
is_watched id telegram_id search_id p =
    str_eq p.query_id id && any_where (is_watch telegram_id search_id) p.watches

add_watch-is_watched :
    (id : String) (q : SourceQuery) (c : String) (w : QueryWatch) (scopes : Scopes)
    → any_where (is_watched id w.telegram_id w.search_id) (add_watch id q c w scopes) ≡ true
unfolding any_where add_watch
add_watch-is_watched id q c w [] = ground (arith, eq_iff id id, eq_iff w.search_id w.search_id)
add_watch-is_watched id q c w (p ∷ scopes) = ground (
  arith,
  eq_iff w.search_id w.search_id,
  any_where-append (is_watch w.telegram_id w.search_id) p.watches w,
  add_watch-is_watched id q c w scopes,
)

-- Who watches goes on to watch.
add_watch-keeps :
    (id : String) (q : SourceQuery) (c : String) (w : QueryWatch) (i : String) (t : ℕ) (s : String)
    (scopes : Scopes)
    → any_where (is_watched i t s) scopes ≡ true
    → any_where (is_watched i t s) (add_watch id q c w scopes) ≡ true
unfolding any_where add_watch
add_watch-keeps id q c w i t s [] h = cc
add_watch-keeps id q c w i t s (p ∷ scopes) h =
    ground
      (arith, any_where-append (is_watch t s) p.watches w, add_watch-keeps id q c w i t s scopes)

module _ (h : Hashing) where
  module _ (i : String) (t : ℕ) (search_id : String) where
    search-watched :
        (person : AllowlistEntry) (u : Search) (g : Planned)
        → any_where (is_watched i t search_id) g.0 ≡ true
        → any_where (is_watched i t search_id) (plan_search h person u g).0 ≡ true
    unfolding plan_search
    search-watched person u g w = elim (Option-cases (given_state u)) [
      | inl e ↦ rw (e, plan_search) w
      | inr (state, e) ↦ elim (Option-cases (given_id u)) [
        | inl e' ↦ rw (e, e', plan_search) w
        | inr (id, e') ↦
            rw (e, e', plan_search)
              (unfold plan_watch in add_watch-keeps _ _ _ _ i t search_id g.0 w)
      ]
    ]

    searches-watched :
        (person : AllowlistEntry) (searches : List Search) (g : Planned)
        → any_where (is_watched i t search_id) g.0 ≡ true
        → any_where (is_watched i t search_id) (plan_searches h person searches g).0 ≡ true
    unfolding plan_searches
    searches-watched person [] g w = w
    searches-watched person (u ∷ searches) g w =
        searches-watched person searches (plan_search h person u g) (search-watched person u g w)

    people-watched :
        (people : List AllowlistEntry) (g : Planned)
        → any_where (is_watched i t search_id) g.0 ≡ true
        → any_where (is_watched i t search_id) (plan_people h people g).0 ≡ true
    unfolding plan_people
    people-watched [] g w = w
    people-watched (p ∷ people) g w =
        people-watched people _ (searches-watched p (active_searches p.profile) g w)

-- The id of the scope that a search is to share.
abbrev pub scope_id : Hashing → Search → Text → String
scope_id h s state = h.query_id_of (h.canonical (zillow_query s state))

module _ (h : Hashing) (s : Search) (state : Text) (search_id : String)
    (given : given_state s ≡ some state) (named : given_id s ≡ some search_id) where
  abbrev watched_by : ℕ → PlannedSourceQuery → Bool
  watched_by t = is_watched (scope_id h s state) t search_id

  own-watched :
      (person : AllowlistEntry) (g : Planned)
      → any_where (watched_by person.telegram_id) (plan_search h person s g).0 ≡ true
  unfolding plan_search plan_watch
  own-watched person g =
      rw (given, named, plan_search)
        (add_watch-is_watched (scope_id h s state) (zillow_query s state)
          (h.canonical (zillow_query s state)) (watch_of person s search_id) g.0)

  in_searches :
      (person : AllowlistEntry) (searches : List Search) (g : Planned)
      → Memᴰ s searches
      → any_where (watched_by person.telegram_id) (plan_searches h person searches g).0 ≡ true
  unfolding plan_searches
  in_searches person [] g m = absurd (Memᴰ.not-nil m)
  in_searches person (u ∷ searches) g (Memᴰ.head e) =
      searches-watched h (scope_id h s state) person.telegram_id search_id person searches _ (
        subst (λ v. any_where (watched_by person.telegram_id) (plan_search h person v g).0 ≡ true) e
          (own-watched person g))
  in_searches person (u ∷ searches) g (Memᴰ.tail m) =
      in_searches person searches (plan_search h person u g) m

  in_people :
      (person : AllowlistEntry) (people : List AllowlistEntry) (g : Planned)
      → Memᴰ person people
      → Memᴰ s (active_searches person.profile)
      → any_where (watched_by person.telegram_id) (plan_people h people g).0 ≡ true
  unfolding plan_people
  in_people person [] g m has = absurd (Memᴰ.not-nil m)
  in_people person (p ∷ people) g (Memᴰ.head e) has =
      people-watched h (scope_id h s state) person.telegram_id search_id people _ (
        subst
          (λ r.
            any_where (watched_by person.telegram_id)
              (plan_searches h r (active_searches r.profile) g).0
            ≡ true)
          e (in_searches person (active_searches person.profile) g has))
  in_people person (p ∷ people) g (Memᴰ.tail m) has = in_people person people _ m has

-- Neither order changes what is planned.
sorted-watched :
    (i : String) (t : ℕ) (search_id : String) (scopes : Scopes)
    → any_where (is_watched i t search_id) (map with_sorted_watches scopes)
      ≡ any_where (is_watched i t search_id) scopes
unfolding any_where
sorted-watched i t search_id [] = refl
sorted-watched i t search_id (p ∷ scopes) =
    rw
      (
        any_where-ordered_by (is_watch t search_id) watch_before p.watches,
        sorted-watched i t search_id scopes,
      )
      refl

-- Every active search of an active person that has a state and an id watches the scope of the id
-- that its own query makes. The scopes have different ids, and each has the query that its id is made
-- of, so that two searches are fetched for together exactly if their queries have one id.
pub plan_shares :
    (h : Hashing) (a : Allowlist) (person : AllowlistEntry) (s : Search) (state : Text)
    (search_id : String)
    → Memᴰ person (active_people a)
    → Memᴰ s (active_searches person.profile)
    → given_state s ≡ some state
    → given_id s ≡ some search_id
    → (any_where
          (is_watched (scope_id h s state) person.telegram_id search_id)
          (planned_scopes h a).0
        ≡ true)
      × Distinct same_id (planned_scopes h a).0
      × All (IsOwn h) (planned_scopes h a).0
unfolding planned_scopes
plan_shares h a person s state search_id at_person at_search given named =
    let g = plan_people h (active_people a) ([], []) in
    let sound = people-IsSound h (active_people a) ([], []) (tt, tt) in
    (
      sorted-watched (scope_id h s state) person.telegram_id search_id (ordered_by id_before g.0)
          ∙ any_where-ordered_by _ id_before g.0
          ∙ in_people h s state search_id given named person (active_people a) ([], []) at_person
              at_search,
      sorted-Distinct _ (ordered-Distinct g.0 sound.0),
      sorted-Own h _ (All-ordered_by (IsOwn h) id_before g.0 sound.1),
    )
