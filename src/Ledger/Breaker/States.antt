-- ===== src/Ledger/Breaker/States.antt =====
-- What a call on the breakers makes of the row of its source, and of the others.
use mathlib.Core.Option
use chc_rental.Base.{
  ℕ, String, ◌≡◌, ◌≢◌, refl, ◌∙◌, Bool, true, false, ◌&&◌, Option, none, some, List, [], ◌∷◌, arith,
  Bool-cases, Option-cases, inl, inr, if◌then◌else◌, str_eq, eq_iff, eq_refl,
}
use chc_rental.Base.Table.{
  update_where, find_where, any_where, find_where-update_where, find_where-append, find_where-holds,
}
use chc_rental.Base.Table.Distinct.{find_where-any_where}
use chc_rental.Ledger.{Ledger, SourceBreaker, closed, opened, half_open}
use chc_rental.Ledger.Breaker.{
  has_source, breaker_of, set_breaker, start_allowed, is_open, probe_row, is_probing,
  source_start_allowed, release_source_probe, Failure, failed_breaker, or_fresh,
  record_source_failure, healthy_breaker, record_source_success, acknowledged,
  acknowledge_source_alert,
}

-- The calls that change the breaker of a source.
pub data Event : Type 0 where
  start release success acknowledge : ℕ → Event
  failure : Failure → Event

-- The ledger after a call for a source.
unfoldable pub apply : String → Event → Ledger → Ledger
apply source (start now) l = (source_start_allowed source now l).1
apply source (release now) l = release_source_probe source now l
apply source (success now) l = (record_source_success source now l).1
apply source (acknowledge now) l = acknowledge_source_alert source now l
apply source (failure f) l = (record_source_failure source f l).1

abbrev released : ℕ → SourceBreaker → SourceBreaker
released now b = elim b.state [
  | closed ↦ b
  | opened ↦ b
  | half_open ↦ record b { state = opened; updated_at = now }
]

-- The row of a source after a call, by the functions that the methods are made of.
unfoldable pub react : String → Event → Option SourceBreaker → Option SourceBreaker
react source (start now) o =
    if start_allowed o now && is_open o then Option.map (probe_row now) o else o
react source (release now) o = Option.map (released now) o
react source (success now) o = some (healthy_breaker now (or_fresh source o))
react source (acknowledge now) o = Option.map (acknowledged now) o
react source (failure f) o = some (failed_breaker f (or_fresh source o))

breaker_of-update_where :
    (s : String) (p : SourceBreaker → Bool) (f : SourceBreaker → SourceBreaker) (l : Ledger)
    → ((b : SourceBreaker) → p b ≡ true → (f b).source ≡ b.source)
    → find_where (has_source s) (update_where p f l.source_breakers)
      ≡ Option.map (λ b. if p b then f b else b) (find_where (has_source s) l.source_breakers)
breaker_of-update_where s p f l same =
    find_where-update_where (has_source s) p f l.source_breakers (λ b hit. rw (same b hit))

replaced :
    (s : String) (b : SourceBreaker) (rows : List SourceBreaker)
    → find_where (has_source s) (update_where (has_source b.source) (λ _. b) rows) ≡ (
        if str_eq b.source s && any_where (has_source b.source) rows
        then some b
        else find_where (has_source s) rows)
unfolding find_where update_where any_where
replaced s b [] = ground arith
replaced s b (x ∷ rows) =
    ground
      (arith, eq_iff x.source b.source, eq_iff x.source s, eq_iff b.source s, replaced s b rows)

-- An upsert is seen under its own source, and under no other.
breaker_of-set_breaker :
    (s : String) (b : SourceBreaker) (l : Ledger)
    → breaker_of s (set_breaker b l) ≡ (if str_eq b.source s then some b else breaker_of s l)
unfolding breaker_of set_breaker
breaker_of-set_breaker s b l =
    elim (Bool-cases (any_where (has_source b.source) l.source_breakers)) [
      | inl there ↦ rw there (replaced s b l.source_breakers ∙ ground arith)
      | inr missing ↦ rw missing (
          find_where-append (has_source s) l.source_breakers b
          ∙ elim (Bool-cases (str_eq b.source s)) [
            | inl same ↦
                let e : b.source ≡ s = (eq_iff b.source s).0 same in
                let gone : find_where (has_source s) l.source_breakers ≡ none =
                  rw e at (find_where-any_where (has_source b.source) l.source_breakers missing) in
                rw (gone, same)
            | inr other ↦ rw other (ground arith)
          ])
    ]

source-or_fresh : (s : String) (l : Ledger) → (or_fresh s (breaker_of s l)).source ≡ s
unfolding breaker_of
source-or_fresh s l = elim (Option-cases (breaker_of s l)) [
  | inl e ↦ rw e
  | inr (b, e) ↦
      rw e ((eq_iff b.source s).0 (find_where-holds (has_source s) l.source_breakers b e))
]

not_same : (b t : String) → t ≢ b → str_eq b t ≡ false
not_same b t ne = ground (arith, eq_iff b t)

module _ (s : String) (f : SourceBreaker → SourceBreaker) (l : Ledger) where
  -- An UPDATE that changes rows of the source `s` only.
  updated_self :
      (p : SourceBreaker → Bool) (h : SourceBreaker → SourceBreaker)
      → ((b : SourceBreaker) → (f b).source ≡ b.source)
      → ((b : SourceBreaker) → has_source s b ≡ true → (if p b then f b else b) ≡ h b)
      → find_where (has_source s) (update_where p f l.source_breakers)
        ≡ Option.map h (find_where (has_source s) l.source_breakers)
  updated_self p h same does =
      breaker_of-update_where s p f l (λ b hit. same b)
      ∙ elim (Option-cases (find_where (has_source s) l.source_breakers)) [
        | inl e ↦ rw e
        | inr (b, e) ↦ rw (e, does b (find_where-holds (has_source s) l.source_breakers b e))
      ]

  updated-other :
      (p : SourceBreaker → Bool) (t : String)
      → ((b : SourceBreaker) → (f b).source ≡ b.source)
      → ((b : SourceBreaker) → p b ≡ true → has_source s b ≡ true)
      → t ≢ s
      → find_where (has_source t) (update_where p f l.source_breakers)
        ≡ find_where (has_source t) l.source_breakers
  updated-other p t same only ne =
      breaker_of-update_where t p f l (λ b hit. same b)
      ∙ elim (Option-cases (find_where (has_source t) l.source_breakers)) [
        | inl e ↦ rw e
        | inr (b, e) ↦ rw e (
            ground (
              arith,
              only b,
              find_where-holds (has_source t) l.source_breakers b e,
              eq_iff b.source t,
              eq_iff b.source s,
            ))
      ]

module _ (s : String) (l : Ledger) where
  set-react :
      (b : SourceBreaker)
      → b.source ≡ s
      → (breaker_of s (set_breaker b l) ≡ some b)
        × ((t : String) → t ≢ s → breaker_of t (set_breaker b l) ≡ breaker_of t l)
  set-react b own = (
    rw (breaker_of-set_breaker s b l, own, eq_refl s),
    λ t ne. rw (breaker_of-set_breaker t b l, own, not_same s t ne),
  )

  start-react :
      (now : ℕ)
      → (breaker_of s (source_start_allowed s now l).1 ≡ react s (start now) (breaker_of s l))
        × ((t : String) → t ≢ s → breaker_of t (source_start_allowed s now l).1 ≡ breaker_of t l)
  unfolding source_start_allowed react breaker_of
  start-react now =
      elim (Bool-cases (start_allowed (breaker_of s l) now && is_open (breaker_of s l))) [
        | inl claims ↦ rw claims (
          updated_self s (probe_row now) l (has_source s) (probe_row now) (λ b. refl)
              (λ b own. rw own),
          λ t ne. updated-other s (probe_row now) l (has_source s) t (λ b. refl) (λ b own. own) ne,
        )
        | inr stays ↦ rw stays (refl, λ t ne. refl)
      ]

-- A call changes the row of its source by the function of its method, and no other row.
pub apply-react :
    (s : String) (e : Event) (l : Ledger)
    → (breaker_of s (apply s e l) ≡ react s e (breaker_of s l))
      × ((t : String) → t ≢ s → breaker_of t (apply s e l) ≡ breaker_of t l)
unfolding apply react
apply-react s (start now) l = start-react s l now
apply-react s (release now) l =
    unfold release_source_probe breaker_of in
    (
      updated_self s _ l (is_probing s) (released now) (λ b. refl) (λ b own. ground arith),
      λ t ne. updated-other s _ l (is_probing s) t (λ b. refl) (λ b hit. ground arith) ne,
    )
apply-react s (success now) l =
    unfold record_source_success in
    set-react s l (healthy_breaker now (or_fresh s (breaker_of s l)))
      (unfold healthy_breaker in source-or_fresh s l)
apply-react s (acknowledge now) l =
    unfold acknowledge_source_alert breaker_of in
    (
      updated_self s (acknowledged now) l (has_source s) (acknowledged now)
          (unfold acknowledged in λ b. ground arith) (λ b own. rw own),
      λ t ne.
          updated-other s (acknowledged now) l (has_source s) t
            (unfold acknowledged in λ b. ground arith) (λ b own. own) ne,
    )
apply-react s (failure f) l =
    unfold record_source_failure in
    set-react s l (failed_breaker f (or_fresh s (breaker_of s l)))
      (unfold failed_breaker in source-or_fresh s l)
