-- ===== src/Shadow/Queues.antt =====
-- What `plan_shadow_notifications` queues.
use chc_rental.Base.{
  ℕ, String, ◌≡◌, refl, ap, ◌∙◌, Bool, true, false, ◌&&◌, not, Option, none, some, List, [], ◌∷◌,
  arith, Bool-cases, Option-cases, inl, inr, ◌==◌, ==_iff, str_eq, eq_iff,
}
use mathlib.Core.Path.{subst}
use chc_rental.Base.Str.{opt_eq}
use chc_rental.Base.Table.{rows_where, any_where, All, find_where-holds}
use chc_rental.Base.Raise.{Result, ok, err}
use chc_rental.Models.{Search, active_searches, AllowlistEntry, Allowlist, get, is_allowlisted}
use chc_rental.Matching.{matches_search}
use chc_rental.Ledger.{Ledger}
use chc_rental.Ledger.Observations.{is_new_type}
use chc_rental.Ledger.Outbox.{
  ShadowIntent, EnqueueOutcome, queued, duplicate, cap_reached, OutboxEnqueueResult, enqueue_shadow,
}
use chc_rental.Planner.Incremental.{PlannedSourceQuery, Planned, given_id}
use chc_rental.Worker.{listed, is_matching}
use chc_rental.Pipeline.Planned.{All-found}
use chc_rental.Shadow.State.{
  already_seen, Shadowing, ListingEvent, ShadowOutboxReport, wanted_searches, matching_ids,
  intent_for, watches_by_person,
}
use chc_rental.Shadow.Plan.{
  goes_by, goes_on, enqueue_first, Tallied, counted, plan_matching, plan_person, and_next,
  plan_persons, after_event, plan_events, plan_scope, with_plan, plan_shadow_notifications,
}

-- The intent is for a new listing of the event that the recipient has not seen, and an active search
-- of the recipient, with the id and the cap of the intent, matches the listing.
abbrev pub is_for_event : Shadowing → ShadowIntent → ListingEvent → AllowlistEntry → Bool
is_for_event w i e person =
    is_new_type e.event_type
    && str_eq i.identity_key e.identity_key
    && not (listed e.identity_key (already_seen w i.created_at i.telegram_id))
    && any_where
        (λ s.
          matches_search e.listing s
          && opt_eq (given_id s) (some i.search_id)
          && i.daily_cap == s.daily_cap)
        (active_searches person.profile)

-- The recipient is active in the allowlist, and one of the events is what the intent is for.
abbrev pub IsMeant : Shadowing → List ListingEvent → ShadowIntent → Type 0
IsMeant w events i =
    (person : AllowlistEntry) × (get w.allowlist i.telegram_id ≡ some person)
    × (is_allowlisted w.allowlist i.telegram_id ≡ true)
    × (any_where (λ e. is_for_event w i e person) events ≡ true)

-- The ledger after a number of calls of `enqueue_shadow`, each with an intent that is meant.
pub data Queues (w : Shadowing) (events : List ListingEvent) : Ledger → Ledger → Type 0 where
  done : (l : Ledger) → Queues w events l l
  queue :
      (i : ShadowIntent) (l l' : Ledger)
      → IsMeant w events i
      → Queues w events (enqueue_shadow i l).1 l'
      → Queues w events l l'

get-id :
    (a : Allowlist) (id : ℕ) (person : AllowlistEntry)
    → get a id ≡ some person
    → person.telegram_id ≡ id
unfolding get
get-id a id person found =
    (==_iff person.telegram_id id).0
      (find_where-holds (λ (p : AllowlistEntry). p.telegram_id == id) a.people person found)

-- Rows that a test picks, by what holds for each row and the test.
All-rows {ℓ κ ι} :
    {A : Type ℓ} {P : A → Type κ} {Q : A → Type ι} (p : A → Bool) (xs : List A)
    → ((x : A) → P x → p x ≡ true → Q x)
    → All P xs
    → All Q (rows_where p xs)
unfolding rows_where
All-rows p [] f h = tt
All-rows p (x ∷ xs) f h = elim (Bool-cases (p x)) [
  | inl yes_ ↦ rw yes_ (f x h.0 yes_, All-rows p xs f h.1)
  | inr no_ ↦ rw no_ (All-rows p xs f h.1)
]

module _ (w : Shadowing) (events : List ListingEvent) (now : ℕ) where
  Queues-then :
      (l l' l'' : Ledger) → Queues w events l l' → Queues w events l' l'' → Queues w events l l''
  Queues-then l l' l'' (done _) q = q
  Queues-then l l' l'' (queue i _ _ meant rest) q =
      queue i l l'' meant (Queues-then (enqueue_shadow i l).1 l' l'' rest q)

  and_next-Queues {ℓ κ} :
      {A : Type ℓ} {B : Type κ} (l : Ledger) (r : Result A × Ledger)
      (f : A → Ledger → Result B × Ledger)
      → Queues w events l r.1
      → ((a : A) (l' : Ledger) → Queues w events l' (f a l').1)
      → Queues w events l (and_next r f).1
  and_next-Queues l (ok a, l') f q rest = Queues-then l l' (f a l').1 q (rest a l')
  and_next-Queues l (err x, l') f q rest = q

  goes_on-Queues :
      (l : Ledger) (r : Result OutboxEnqueueResult × Ledger)
      (rest : Ledger → Result (Option EnqueueOutcome) × Ledger)
      → Queues w events l r.1
      → ((l' : Ledger) → Queues w events l' (rest l').1)
      → Queues w events l (goes_on r rest).1
  goes_on-Queues l (err x, l') rest q k = q
  goes_on-Queues l (ok a, l') rest q k = by_outcome a.outcome
    where
      by_outcome : (o : EnqueueOutcome) → Queues w events l (goes_by o l' rest).1
      by_outcome queued = q
      by_outcome duplicate = q
      by_outcome cap_reached = Queues-then l l' (rest l').1 q (k l')

  -- The searches of one person.
  module _ (e : ListingEvent) (person : AllowlistEntry) (ids : List String) where
    abbrev CanQueue : Search → Type 0
    CanQueue s =
        (id : String) → given_id s ≡ some id → IsMeant w events (intent_for w e now person ids s id)

    enqueue_first-Queues :
        (searches : List Search) (last : Option EnqueueOutcome) (l : Ledger)
        → All CanQueue searches
        → Queues w events l (enqueue_first w e now person ids searches last l).1
    unfolding enqueue_first
    enqueue_first-Queues [] last l can = done l
    enqueue_first-Queues (s ∷ searches) last l can = elim (Option-cases (given_id s)) [
      | inl no_id ↦ rw (enqueue_first, no_id) (enqueue_first-Queues searches last l can.1)
      | inr (id, has_id) ↦
          rw (enqueue_first, has_id)
            (goes_on-Queues l (enqueue_shadow (intent_for w e now person ids s id) l) _
              (queue (intent_for w e now person ids s id) l _ (can.0 id has_id) (done _))
              (λ l'. enqueue_first-Queues searches (some cap_reached) l' can.1))
    ]

  counted-Queues :
      (l : Ledger) (t : Tallied) (r : Result (Option EnqueueOutcome) × Ledger)
      → Queues w events l r.1
      → Queues w events l (counted t r).1
  counted-Queues l t (ok o, l') q = q
  counted-Queues l t (err x, l') q = q

  -- One event that is among the events.
  module _ (e : ListingEvent) (is_new : is_new_type e.event_type ≡ true)
      (is_one : (q : ListingEvent → Bool) → q e ≡ true → any_where q events ≡ true) where
    can_queue :
        (person : AllowlistEntry) (ids ids' : List String)
        → get w.allowlist person.telegram_id ≡ some person
        → is_allowlisted w.allowlist person.telegram_id ≡ true
        → listed e.identity_key (already_seen w now person.telegram_id) ≡ false
        → All (CanQueue e person ids) (wanted_searches e ids' person)
    unfolding wanted_searches
    can_queue person ids ids' found active unseen =
        All-rows (λ s. is_matching ids' s && matches_search e.listing s)
          (active_searches person.profile)
          (λ s among holds id has_id.
            let same_id : opt_eq (given_id s) (some id) ≡ true =
              ap (λ o. opt_eq o (some id)) has_id ∙ (eq_iff id id).1 refl in
            let matches : matches_search e.listing s ≡ true = ground arith in
            let wanted =
              among
                (λ s'.
                  matches_search e.listing s'
                  && opt_eq (given_id s') (some id)
                  && s.daily_cap == s'.daily_cap)
                (rw (matches, same_id, (==_iff s.daily_cap s.daily_cap).1 refl) refl) in
            (
              person,
              found,
              active,
              is_one (λ e'. is_for_event w (intent_for w e now person ids s id) e' person)
                  (rw (is_new, unseen, (eq_iff e.identity_key e.identity_key).1 refl, wanted) refl),
            ))
          (All-found (active_searches person.profile))

    plan_matching-Queues :
        (person : AllowlistEntry) (ids' : List String) (searches : List Search) (t : Tallied)
        (l : Ledger)
        → wanted_searches e ids' person ≡ searches
        → get w.allowlist person.telegram_id ≡ some person
        → is_allowlisted w.allowlist person.telegram_id ≡ true
        → Queues w events l (plan_matching w e now person searches t l).1
    unfolding plan_matching
    plan_matching-Queues person ids' [] t l wants found active = done l
    plan_matching-Queues person ids' (s ∷ searches) t l wants found active =
        elim (Bool-cases (listed e.identity_key (already_seen w now person.telegram_id))) [
          | inl seen ↦ rw seen (done l)
          | inr unseen ↦ rw unseen (
              counted-Queues l t
                (enqueue_first w e now person (matching_ids (s ∷ searches)) (s ∷ searches) none l)
                (enqueue_first-Queues e person (matching_ids (s ∷ searches)) (s ∷ searches) none l (
                  subst (All (CanQueue e person (matching_ids (s ∷ searches)))) wants
                    (can_queue person (matching_ids (s ∷ searches)) ids' found active unseen))))
        ]

    plan_person-Queues :
        (g : ℕ × List String) (t : Tallied) (l : Ledger)
        → Queues w events l (plan_person w e now g t l).1
    unfolding plan_person
    plan_person-Queues (id, ids) t l = elim (Option-cases (get w.allowlist id)) [
      | inl gone ↦ rw (plan_person, gone) (done l)
      | inr (person, found) ↦ elim (Bool-cases (is_allowlisted w.allowlist id)) [
        | inr removed ↦ rw (plan_person, found, removed) (done l)
        | inl active ↦
            let same : person.telegram_id ≡ id = get-id w.allowlist id person found in
            rw (plan_person, found, active)
              (plan_matching-Queues person ids _ t l refl (ap (get w.allowlist) same ∙ found)
                (ap (is_allowlisted w.allowlist) same ∙ active))
      ]
    ]

    plan_persons-Queues :
        (groups : List (ℕ × List String)) (t : Tallied) (l : Ledger)
        → Queues w events l (plan_persons w e now groups t l).1
    unfolding plan_persons
    plan_persons-Queues [] t l = done l
    plan_persons-Queues (g ∷ groups) t l =
        and_next-Queues l (plan_person w e now g t l) _ (plan_person-Queues g t l)
          (plan_persons-Queues groups)

  plan_events-Queues :
      (groups : List (ℕ × List String)) (some_events : List ListingEvent) (r : ShadowOutboxReport)
      (l : Ledger)
      → All (λ e. (q : ListingEvent → Bool) → q e ≡ true → any_where q events ≡ true) some_events
      → Queues w events l (plan_events w now groups some_events r l).1
  unfolding plan_events
  plan_events-Queues groups [] r l among = done l
  plan_events-Queues groups (e ∷ some_events) r l among =
      elim (Bool-cases (is_new_type e.event_type)) [
        | inr known ↦ rw (plan_events, known) (plan_events-Queues groups some_events r l among.1)
        | inl is_new ↦
            rw (plan_events, is_new)
              (and_next-Queues l (plan_persons w e now groups (false, r) l) _
                (plan_persons-Queues e is_new among.0 groups (false, r) l)
                (λ t l'. plan_events-Queues groups some_events (after_event t) l' among.1))
      ]

  plan_scope-Queues :
      (o : Option PlannedSourceQuery) (l : Ledger)
      → Queues w events l (plan_scope w events now o l).1
  plan_scope-Queues none l = done l
  plan_scope-Queues (some scope) l =
      plan_events-Queues (watches_by_person scope.watches []) events _ l (All-found events)

  with_plan-Queues :
      (query_id : String) (r : Result Planned) (l : Ledger)
      → Queues w events l (with_plan w events query_id now r l).1
  with_plan-Queues query_id (err x) l = done l
  with_plan-Queues query_id (ok planned) l = plan_scope-Queues _ l

  -- Planning of the events of a collection, whether it returns or raises, changes the ledger by calls
  -- of `enqueue_shadow` only, each with an intent that is meant: for a person who is active in the
  -- allowlist, a new listing that the person has not seen, and an active search of the person that
  -- matches the listing and whose id and cap the intent has.
  pub plan_shadow-Queues :
      (query_id : String) (l : Ledger)
      → Queues w events l (plan_shadow_notifications w events query_id now l).1
  unfolding plan_shadow_notifications
  plan_shadow-Queues query_id l = with_plan-Queues query_id _ l
