-- ===== src/Planner/Incremental.antt =====
-- `plan_incremental_queries` of src/chc_rental/sources/planner.py: one scope for each distinct query,
-- with the searches that watch it.
use chc_rental.Base.{
  ℕ, String, Bool, ◌&&◌, ◌||◌, Option, none, some, List, [], ◌∷◌, ◌++◌, map, ltb, ◌==◌, str_eq,
  if◌then◌else◌,
}
use chc_rental.Base.Str.{str_leb}
use chc_rental.Base.Table.{ordered_by}
use chc_rental.Base.Raise.{Result, ok, err, value}
use chc_rental.Text.{Text, lower, strip}
use chc_rental.Text.Equal.{text_eq}
use chc_rental.Models.{Search, active_searches, AllowlistEntry, Allowlist, active_people}
use chc_rental.Planner.{SourceQuery, zillow_types, Warning, given_state}

pub record QueryWatch : Type 0 where
  pub telegram_id : ℕ
  pub search_id : String
  pub search_name : Text

pub record PlannedSourceQuery : Type 0 where
  pub query_id : String
  pub source : String
  pub query : SourceQuery
  pub query_json : String
  pub watches : List QueryWatch

-- `json.dumps` of a source and a query, with its keys in order, and the id that is made of the
-- SHA-256 of that text.
pub record Hashing : Type 0 where
  pub canonical : SourceQuery → String
  pub query_id_of : String → String

unfoldable pub zillow_query : Search → Text → SourceQuery
zillow_query s state = record {
  city = strip s.city;
  state = state;
  price_min = s.price_min;
  price_max = s.price_max;
  beds_min = s.bed_min;
  beds_max = s.bed_max;
  baths_min = s.bath_min;
  property_types = zillow_types (s ∷ []);
}

-- `search.search_id`, where it is truthy
abbrev pub given_id : Search → Option String
given_id s = elim s.search_id [ none ↦ none | some i ↦ if str_eq i "" then none else some i ]

-- The two warnings about a search that cannot be planned.
pub data PlanWarning : Type 0 where
  no_state no_search_id : Warning → PlanWarning

abbrev pub Scopes : Type 0
Scopes = List PlannedSourceQuery

abbrev pub Planned : Type 0
Planned = Scopes × List PlanWarning

-- `grouped[query_id] = (query, canonical, [])` where the id is new, and the append.
unfoldable pub add_watch : String → SourceQuery → String → QueryWatch → Scopes → Scopes
add_watch id query canonical w [] =
    record {
      query_id = id;
      source = "zillow";
      query = query;
      query_json = canonical;
      watches = w ∷ [];
    }
    ∷ []
add_watch id query canonical w (p ∷ scopes) =
    let rest = add_watch id query canonical w scopes in
    if str_eq p.query_id id then record p { watches = p.watches ++ w ∷ [] } ∷ scopes else p ∷ rest

abbrev warning : AllowlistEntry → Search → Warning
warning person s = record {
  search_name = s.name;
  display_name = person.display_name;
  telegram_id = person.telegram_id;
}

abbrev pub watch_of : AllowlistEntry → Search → String → QueryWatch
watch_of person s search_id = record {
  telegram_id = person.telegram_id;
  search_id = search_id;
  search_name = s.name;
}

-- A search with a state and an id.
unfoldable pub plan_watch : Hashing → AllowlistEntry → Search → Text → String → Scopes → Scopes
plan_watch h person s state search_id scopes =
    let query = zillow_query s state in
    let canonical = h.canonical query in
    add_watch (h.query_id_of canonical) query canonical (watch_of person s search_id) scopes

-- One turn of the inner loop.
unfoldable pub plan_search : Hashing → AllowlistEntry → Search → Planned → Planned
plan_search h person s (scopes, warnings) = elim (given_state s) [
  | none ↦ (scopes, warnings ++ no_state (warning person s) ∷ [])
  | some state ↦ elim (given_id s) [
    | none ↦ (scopes, warnings ++ no_search_id (warning person s) ∷ [])
    | some search_id ↦ (plan_watch h person s state search_id scopes, warnings)
  ]
]

unfoldable pub plan_searches : Hashing → AllowlistEntry → List Search → Planned → Planned
plan_searches h person [] g = g
plan_searches h person (s ∷ searches) g = plan_searches h person searches (plan_search h person s g)

unfoldable pub plan_people : Hashing → List AllowlistEntry → Planned → Planned
plan_people h [] g = g
plan_people h (p ∷ people) g =
    plan_people h people (plan_searches h p (active_searches p.profile) g)

abbrev pub watch_before : QueryWatch → QueryWatch → Bool
watch_before v w =
    ltb v.telegram_id w.telegram_id
    || v.telegram_id == w.telegram_id && str_leb v.search_id w.search_id

abbrev pub with_sorted_watches : PlannedSourceQuery → PlannedSourceQuery
with_sorted_watches p = record p { watches = ordered_by watch_before p.watches }

abbrev pub id_before : PlannedSourceQuery → PlannedSourceQuery → Bool
id_before p q = str_leb p.query_id q.query_id

unfoldable pub planned_scopes : Hashing → Allowlist → Planned
planned_scopes h a =
    let (scopes, warnings) = plan_people h (active_people a) ([], []) in
    (map with_sorted_watches (ordered_by id_before scopes), warnings)

abbrev pub zillow : Text
zillow = b'z' ∷ b'i' ∷ b'l' ∷ b'l' ∷ b'o' ∷ b'w' ∷ []

unfoldable pub plan_incremental_queries : Hashing → Text → Allowlist → Result Planned
plan_incremental_queries h source a =
    if text_eq (lower (strip source)) zillow then ok (planned_scopes h a) else err value
