-- ===== src/Quota/Tests.antt =====
-- The request ledger at concrete inputs.
use chc_rental.Base.{◌≡◌, refl, true, [], ◌∷◌}
use chc_rental.Quota.{used, used_total, reserve_request, refund_request}
use chc_rental.Quota.Bounds.{Reserved, SameCounts, reserve_request-Reserved, reserve-refund}

reserve_request-Reserved_example :
    Reserved "zillow" 5 100
      (("zillow", 4) ∷ [])
      (reserve_request "zillow" 5 100 (("zillow", 4) ∷ []))
reserve_request-Reserved_example = reserve_request-Reserved "zillow" 5 100 (("zillow", 4) ∷ [])

reserve-refund_example :
    ((refund_request "zillow" (reserve_request "zillow" 5 100 (("zillow", 4) ∷ [])).1).0 ≡ true)
    × SameCounts
        (("zillow", 4) ∷ [])
        (refund_request "zillow" (reserve_request "zillow" 5 100 (("zillow", 4) ∷ [])).1).1
reserve-refund_example =
    reserve-refund "zillow" 5 100 (("zillow", 4) ∷ [])
      (unfold reserve_request in unfold used in unfold used_total in refl)
