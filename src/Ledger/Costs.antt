-- ===== src/Ledger/Costs.antt =====
-- `monthly_source_cost` of src/chc_rental/event_store.py. The first moment of the month and of the
-- next one, which `datetime` computes, are arguments.
use chc_rental.Base.{
  ℕ, zero, suc, ◌+◌, ◌-◌, ◌*◌, ◌/◌, min, String, Bool, true, false, ◌&&◌, not, Option, none, some,
  List, [], ◌∷◌, length, leb, ltb, str_eq,
}
use chc_rental.Base.Table.{rows_where, count_where, ordered_by}
use chc_rental.Ledger.{Ledger, SourceRun, ExecutionMode, live}

pub record SourceCost : Type 0 where
  pub known_cost_usd : ℕ
  pub known_runs : ℕ
  pub unknown_runs : ℕ
  pub p95_cost_usd : Option ℕ

abbrev is_live : ExecutionMode → Bool
is_live live = true
is_live _ = false

abbrev is_in_month : String → ℕ → ℕ → SourceRun → Bool
is_in_month source start end_ r =
    str_eq r.source source
    && (is_live r.execution_mode && (leb start r.started_at && ltb r.started_at end_))

-- The charges of the runs whose charge is known and not NULL.
unfoldable known_charges : List SourceRun → List ℕ
known_charges [] = []
known_charges (r ∷ runs) =
    let rest = known_charges runs in
    elim r.charge_known [
      | false ↦ rest
      | true ↦ elim r.charge_usd [ none ↦ rest | some c ↦ c ∷ rest ]
    ]

unfoldable sum : List ℕ → ℕ
sum [] = 0
sum (n ∷ ns) = n + sum ns

abbrev nth : ℕ → List ℕ → Option ℕ
nth n [] = none
nth zero (x ∷ xs) = some x
nth (suc n) (x ∷ xs) = nth n xs

-- At an empty list the index is out of bounds, and the value None as in the source.
unfoldable percentile_95 : List ℕ → Option ℕ
percentile_95 values = nth (min (length values - 1) ((95 * length values - 1) / 100)) values

unfoldable pub monthly_source_cost : String → ℕ → ℕ → Ledger → SourceCost
unfolding known_charges sum percentile_95
monthly_source_cost source start end_ l =
    let rows = rows_where (is_in_month source start end_) l.source_runs in
    let known_values = ordered_by leb (known_charges rows) in
    record {
      known_cost_usd = sum known_values;
      known_runs = length known_values;
      unknown_runs = count_where (λ r. not r.charge_known) rows;
      p95_cost_usd = percentile_95 known_values;
    }
