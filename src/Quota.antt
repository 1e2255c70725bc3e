-- ===== src/Quota.antt =====
-- The request ledger of one day of src/chc_rental/store.py: `reserve_request` and
-- `refund_request`. The payload of the file of a day is a list of a source and its count; a file that
-- is missing or damaged reads as the empty one.
pub mod Bounds
pub mod Tests
use chc_rental.Base.{
  ℕ, ◌+◌, ◌-◌, String, Bool, true, false, ◌||◌, List, [], ◌∷◌, leb, ◌==◌, str_eq, if◌then◌else◌,
}

abbrev pub Quota : Type 0
Quota = List (String × ℕ)

-- `payload.get(source, 0)`
unfoldable pub used : String → Quota → ℕ
used source [] = 0
used source ((s, n) ∷ q) = if str_eq s source then n else used source q

-- `sum(payload.values())`
unfoldable pub used_total : Quota → ℕ
used_total [] = 0
used_total ((s, n) ∷ q) = n + used_total q

-- `payload[source] = n`
unfoldable pub set_used : String → ℕ → Quota → Quota
set_used source n [] = (source, n) ∷ []
set_used source n ((s, m) ∷ q) =
    if str_eq s source then (s, n) ∷ q else (s, m) ∷ set_used source n q

unfoldable pub reserve_request : String → ℕ → ℕ → Quota → Bool × Quota
reserve_request source per_source_limit global_limit q =
    if leb per_source_limit (used source q) || leb global_limit (used_total q)
    then (false, q)
    else (true, set_used source (used source q + 1) q)

unfoldable pub refund_request : String → Quota → Bool × Quota
refund_request source q =
    if used source q == 0 then (false, q) else (true, set_used source (used source q - 1) q)
