-- ===== src/Base/Table.antt =====
-- A database table as the list of its rows, with what UPDATE, DELETE, COUNT and a SELECT of one row
-- do to it, and the laws that the components share.
pub mod Distinct
pub mod Ordered
use Prim.Native.Nat.{ℕ, zero, suc, ◌+◌, ◌≤◌}
use mathlib.Core.Path.{◌≡◌, refl, subst}
use mathlib.Core.Logic.{inl, inr}
use mathlib.Core.Bool.{Bool, true, false, ◌&&◌, ◌||◌}
use mathlib.Core.Option
use mathlib.Core.Option.{Option, none, some}
use mathlib.Core.List.{List, [], ◌∷◌, ◌++◌}
use native.Mathlib.Omega.{arith}
use chc_rental.Base.Tests.{if◌then◌else◌, Bool-cases}

module _ {ℓ} {A : Type ℓ} where
  -- `UPDATE t SET f WHERE p`
  unfoldable pub update_where : (A → Bool) → (A → A) → List A → List A
  update_where p f [] = []
  update_where p f (x ∷ xs) = (if p x then f x else x) ∷ update_where p f xs

  -- `SELECT COUNT(*) WHERE p`, also the row count of an UPDATE
  unfoldable pub count_where : (A → Bool) → List A → ℕ
  count_where p [] = 0
  count_where p (x ∷ xs) = (if p x then 1 else 0) + count_where p xs

  -- The rows of `SELECT … WHERE p`; `DELETE WHERE p` keeps the rows of `not p`.
  unfoldable pub rows_where : (A → Bool) → List A → List A
  rows_where p [] = []
  rows_where p (x ∷ xs) = if p x then x ∷ rows_where p xs else rows_where p xs

  -- `SELECT … WHERE p` and `fetchone`
  unfoldable pub find_where : (A → Bool) → List A → Option A
  find_where p [] = none
  find_where p (x ∷ xs) = if p x then some x else find_where p xs

  unfoldable pub any_where : (A → Bool) → List A → Bool
  any_where p [] = false
  any_where p (x ∷ xs) = p x || any_where p xs

  -- `ORDER BY`, where `before x y` says that x may stand in front of y; rows that are equal in that
  -- order keep their own.
  unfoldable pub insert_ordered : (A → A → Bool) → A → List A → List A
  insert_ordered before x [] = x ∷ []
  insert_ordered before x (y ∷ ys) =
      let rest = insert_ordered before x ys in if before x y then x ∷ y ∷ ys else y ∷ rest

  unfoldable pub ordered_by : (A → A → Bool) → List A → List A
  ordered_by before [] = []
  ordered_by before (x ∷ xs) = insert_ordered before x (ordered_by before xs)

  -- `LIMIT n`
  unfoldable pub take : ℕ → List A → List A
  take zero xs = []
  take (suc n) [] = []
  take (suc n) (x ∷ xs) = x ∷ take n xs

  abbrev pub All {κ} : (A → Type κ) → List A → Type κ
  All P [] = Unit
  All P (x ∷ xs) = P x × All P xs

module _ {ℓ} {A : Type ℓ} where
  pub All-update_where {κ} :
      (P : A → Type κ) (p : A → Bool) (f : A → A) (xs : List A)
      → ((x : A) → P x → p x ≡ true → P (f x))
      → All P xs
      → All P (update_where p f xs)
  unfolding update_where
  All-update_where P p f [] keep h = tt
  All-update_where P p f (x ∷ xs) keep h = elim (Bool-cases (p x)) [
    | inl yes_ ↦ rw yes_ (keep x h.0 yes_, All-update_where P p f xs keep h.1)
    | inr no_ ↦ rw no_ (h.0, All-update_where P p f xs keep h.1)
  ]

  pub All-append {κ} :
      (P : A → Type κ) (xs : List A) (y : A) → All P xs → P y → All P (xs ++ y ∷ [])
  All-append P [] y h q = (q, tt)
  All-append P (x ∷ xs) y h q = (h.0, All-append P xs y h.1 q)

  -- A row that an update leaves the key of is found where it was.
  pub find_where-update_where :
      (k p : A → Bool) (f : A → A) (xs : List A)
      → ((x : A) → p x ≡ true → k (f x) ≡ k x)
      → find_where k (update_where p f xs)
        ≡ Option.map (λ x. if p x then f x else x) (find_where k xs)
  unfolding find_where update_where
  find_where-update_where k p f [] same = refl
  find_where-update_where k p f (x ∷ xs) same =
      ground (arith, find_where-update_where k p f xs same, same x)

  pub find_where-append :
      (k : A → Bool) (xs : List A) (y : A)
      → find_where k (xs ++ y ∷ [])
        ≡ elim (find_where k xs) [ none ↦ if k y then some y else none | some x ↦ some x ]
  unfolding find_where
  find_where-append k [] y = ground arith
  find_where-append k (x ∷ xs) y = ground (arith, find_where-append k xs y)

  pub find_where-holds :
      (k : A → Bool) (xs : List A) (x : A) → find_where k xs ≡ some x → k x ≡ true
  unfolding find_where
  find_where-holds k [] x h = cc
  find_where-holds k (y ∷ xs) x h = ground (arith, find_where-holds k xs x)

  pub find_where-All {κ} :
      (P : A → Type κ) (k : A → Bool) (xs : List A) (x : A)
      → All P xs
      → find_where k xs ≡ some x
      → P x
  unfolding find_where
  find_where-All P k [] x h e = cc
  find_where-All P k (y ∷ xs) x h e = elim (Bool-cases (k y)) [
    | inl hit ↦ let same : y ≡ x = ground arith in subst P same h.0
    | inr miss ↦ find_where-All P k xs x h.1 (ground arith)
  ]

  pub count_where-append :
      (p : A → Bool) (xs : List A) (y : A)
      → count_where p (xs ++ y ∷ []) ≡ count_where p xs + (if p y then 1 else 0)
  unfolding count_where
  count_where-append p [] y = omega arith
  count_where-append p (x ∷ xs) y = omega (arith, count_where-append p xs y)

  pub any_where-rows_where :
      (q p : A → Bool) (xs : List A)
      → any_where q (rows_where p xs) ≡ any_where (λ x. p x && q x) xs
  unfolding any_where rows_where
  any_where-rows_where q p [] = refl
  any_where-rows_where q p (x ∷ xs) = ground (arith, any_where-rows_where q p xs)

  -- No row to change, nothing changed.
  pub update_where-none :
      (p : A → Bool) (f : A → A) (xs : List A) → count_where p xs ≡ 0 → update_where p f xs ≡ xs
  unfolding update_where count_where
  update_where-none p f [] h = refl
  update_where-none p f (x ∷ xs) h = ground (arith, update_where-none p f xs)

module _ {ℓ} {A : Type ℓ} where
  pub All-after_update {κ ι} :
      (P : A → Type κ) (Q : A → Type ι) (p : A → Bool) (f : A → A) (xs : List A)
      → ((x : A) → P x → Q (if p x then f x else x))
      → All P xs
      → All Q (update_where p f xs)
  unfolding update_where
  All-after_update P Q p f [] after h = tt
  All-after_update P Q p f (x ∷ xs) after h = (after x h.0, All-after_update P Q p f xs after h.1)

  -- An update that brings no row under `q` leaves no more rows there.
  pub count_where-update_where-le :
      (q p : A → Bool) (f : A → A) (xs : List A)
      → ((x : A) → p x ≡ true → q (f x) ≡ true → q x ≡ true)
      → count_where q (update_where p f xs) ≤ count_where q xs
  unfolding count_where update_where
  count_where-update_where-le q p f [] less = omega arith
  count_where-update_where-le q p f (x ∷ xs) less =
      ground (arith, less x, count_where-update_where-le q p f xs less)
