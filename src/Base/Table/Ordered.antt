-- ===== src/Base/Table/Ordered.antt =====
-- `ORDER BY` forgets and adds no row.
use mathlib.Core.Path.{◌≡◌, refl, ◌∙◌}
use mathlib.Core.Bool.{Bool, ◌||◌}
use mathlib.Core.List.{List, [], ◌∷◌}
use native.Mathlib.Omega.{arith}
use chc_rental.Base.Tests.{if-keeps}
use chc_rental.Base.Table.{any_where, All, insert_ordered, ordered_by}

module _ {ℓ} {A : Type ℓ} where
  pub any_where-insert_ordered :
      (q : A → Bool) (before : A → A → Bool) (x : A) (xs : List A)
      → any_where q (insert_ordered before x xs) ≡ (q x || any_where q xs)
  unfolding any_where insert_ordered
  any_where-insert_ordered q before x [] = refl
  any_where-insert_ordered q before x (y ∷ ys) =
      ground (arith, any_where-insert_ordered q before x ys)

  pub any_where-ordered_by :
      (q : A → Bool) (before : A → A → Bool) (xs : List A)
      → any_where q (ordered_by before xs) ≡ any_where q xs
  unfolding any_where ordered_by
  any_where-ordered_by q before [] = refl
  any_where-ordered_by q before (x ∷ xs) =
      any_where-insert_ordered q before x (ordered_by before xs)
      ∙ rw (any_where-ordered_by q before xs) refl

  pub All-insert_ordered {κ} :
      (P : A → Type κ) (before : A → A → Bool) (x : A) (xs : List A)
      → P x
      → All P xs
      → All P (insert_ordered before x xs)
  unfolding insert_ordered
  All-insert_ordered P before x [] h k = (h, tt)
  All-insert_ordered P before x (y ∷ ys) h k =
      if-keeps (All P) (before x y) _ _ (h, k) (k.0, All-insert_ordered P before x ys h k.1)

  pub All-ordered_by {κ} :
      (P : A → Type κ) (before : A → A → Bool) (xs : List A)
      → All P xs
      → All P (ordered_by before xs)
  unfolding ordered_by
  All-ordered_by P before [] h = tt
  All-ordered_by P before (x ∷ xs) h =
      All-insert_ordered P before x (ordered_by before xs) h.0 (All-ordered_by P before xs h.1)
