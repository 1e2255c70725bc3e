-- ===== src/Base/Table/Distinct.antt =====
-- Columns that are UNIQUE: no two rows of a table are alike.
use chc_rental.Base.Tests.{Bool-cases}
use mathlib.Core.Path.{◌≡◌, refl, ◌∙◌, fun_ext}
use mathlib.Core.Logic.{inl, inr}
use mathlib.Core.Bool.{Bool, true, false, ◌||◌}
use mathlib.Core.Option.{none, some}
use mathlib.Core.List.{List, [], ◌∷◌, ◌++◌}
use native.Mathlib.Omega.{arith}
use chc_rental.Base.Table.{update_where, find_where, any_where, All}

module _ {ℓ} {A : Type ℓ} where
  abbrev pub Distinct : (A → A → Bool) → List A → Type 0
  Distinct same [] = Unit
  Distinct same (x ∷ xs) = (any_where (same x) xs ≡ false) × Distinct same xs

  pub any_where-update_where :
      (q p : A → Bool) (f : A → A) (xs : List A)
      → ((x : A) → q (f x) ≡ q x)
      → any_where q (update_where p f xs) ≡ any_where q xs
  unfolding any_where update_where
  any_where-update_where q p f [] same = refl
  any_where-update_where q p f (x ∷ xs) same =
      ground (arith, any_where-update_where q p f xs same, same x)

  pub any_where-append :
      (q : A → Bool) (xs : List A) (y : A) → any_where q (xs ++ y ∷ []) ≡ (any_where q xs || q y)
  unfolding any_where
  any_where-append q [] y = ground arith
  any_where-append q (x ∷ xs) y = ground (arith, any_where-append q xs y)

  pub any_where-find_where :
      (q : A → Bool) (xs : List A) → find_where q xs ≡ none → any_where q xs ≡ false
  unfolding any_where find_where
  any_where-find_where q [] h = refl
  any_where-find_where q (x ∷ xs) h = ground (arith, any_where-find_where q xs)

  pub All-any_where :
      (q : A → Bool) (xs : List A) → any_where q xs ≡ false → All (λ x. q x ≡ false) xs
  unfolding any_where
  All-any_where q [] h = tt
  All-any_where q (x ∷ xs) h = (ground arith, All-any_where q xs (ground arith))

  pub any_where-All :
      (q : A → Bool) (xs : List A) → All (λ x. q x ≡ false) xs → any_where q xs ≡ false
  unfolding any_where
  any_where-All q [] h = refl
  any_where-All q (x ∷ xs) h = ground (arith, h.0, any_where-All q xs h.1)

  pub All-map {κ ι} :
      {P : A → Type κ} {Q : A → Type ι} (xs : List A) → ((x : A) → P x → Q x) → All P xs → All Q xs
  All-map [] f h = tt
  All-map (x ∷ xs) f h = (f x h.0, All-map xs f h.1)

  pub All-zip {κ ι} :
      (P : A → Type κ) (Q : A → Type ι) (xs : List A)
      → All P xs
      → All Q xs
      → All (λ x. P x × Q x) xs
  All-zip P Q [] h k = tt
  All-zip P Q (x ∷ xs) h k = ((h.0, k.0), All-zip P Q xs h.1 k.1)

module _ {ℓ} {A : Type ℓ} where
  pub Distinct-update_where :
      (same : A → A → Bool) (p : A → Bool) (f : A → A) (xs : List A)
      → ((x y : A) → same (f x) y ≡ same x y)
      → ((x y : A) → same x (f y) ≡ same x y)
      → Distinct same xs
      → Distinct same (update_where p f xs)
  unfolding update_where
  Distinct-update_where same p f [] left right h = tt
  Distinct-update_where same p f (x ∷ xs) left right h =
      let rest = Distinct-update_where same p f xs left right h.1 in
      let gone = any_where-update_where (same x) p f xs (right x) ∙ h.0 in
      elim (Bool-cases (p x)) [
        | inl hit ↦ rw (hit, fun_ext (left x)) (gone, rest)
        | inr miss ↦ rw miss (gone, rest)
      ]

  pub Distinct-append :
      (same : A → A → Bool) (xs : List A) (y : A)
      → any_where (λ x. same x y) xs ≡ false
      → Distinct same xs
      → Distinct same (xs ++ y ∷ [])
  unfolding any_where
  Distinct-append same [] y new h = (refl, tt)
  Distinct-append same (x ∷ xs) y new h = (
    ground (arith, any_where-append (same x) xs y, h.0),
    Distinct-append same xs y (ground arith) h.1,
  )

module _ {ℓ} {A : Type ℓ} where
  pub find_where-any_where :
      (q : A → Bool) (xs : List A) → any_where q xs ≡ false → find_where q xs ≡ none
  unfolding any_where find_where
  find_where-any_where q [] h = refl
  find_where-any_where q (x ∷ xs) h = ground (arith, find_where-any_where q xs)

  pub any_where-le :
      (q r : A → Bool) (xs : List A)
      → ((x : A) → r x ≡ true → q x ≡ true)
      → any_where q xs ≡ false
      → any_where r xs ≡ false
  unfolding any_where
  any_where-le q r [] less h = refl
  any_where-le q r (x ∷ xs) less h = ground (arith, less x, any_where-le q r xs less)

  pub any_where-update_where-le :
      (q p : A → Bool) (f : A → A) (xs : List A)
      → ((x : A) → p x ≡ true → q (f x) ≡ true → q x ≡ true)
      → any_where q xs ≡ false
      → any_where q (update_where p f xs) ≡ false
  unfolding any_where update_where
  any_where-update_where-le q p f [] less h = refl
  any_where-update_where-le q p f (x ∷ xs) less h =
      ground (arith, less x, any_where-update_where-le q p f xs less)

module _ {ℓ} {A : Type ℓ} where
  -- An update that makes no two rows alike that were not.
  pub Distinct-update_where-le :
      (same : A → A → Bool) (p : A → Bool) (f : A → A) (xs : List A)
      → ((x y : A) → p x ≡ true → same (f x) y ≡ true → same x y ≡ true)
      → ((x y : A) → p y ≡ true → same x (f y) ≡ true → same x y ≡ true)
      → Distinct same xs
      → Distinct same (update_where p f xs)
  unfolding update_where
  Distinct-update_where-le same p f [] left right h = tt
  Distinct-update_where-le same p f (x ∷ xs) left right h =
      let rest = Distinct-update_where-le same p f xs left right h.1 in
      let gone = any_where-update_where-le (same x) p f xs (right x) h.0 in
      elim (Bool-cases (p x)) [
        | inl hit ↦ rw hit (
          any_where-le (same x) (same (f x)) (update_where p f xs) (λ y. left x y hit) gone,
          rest,
        )
        | inr miss ↦ rw miss (gone, rest)
      ]

  pub any_where_mono :
      (q r : A → Bool) (xs : List A)
      → ((x : A) → q x ≡ true → r x ≡ true)
      → any_where q xs ≡ true
      → any_where r xs ≡ true
  unfolding any_where
  any_where_mono q r [] more h = h
  any_where_mono q r (x ∷ xs) more h = ground (arith, more x, any_where_mono q r xs more)

  pub find_where-any :
      (p q : A → Bool) (xs : List A) (x : A)
      → find_where p xs ≡ some x
      → q x ≡ true
      → any_where q xs ≡ true
  unfolding find_where any_where
  find_where-any p q [] x e h = cc
  find_where-any p q (y ∷ xs) x e h = elim (Bool-cases (p y)) [
    | inl hit ↦ let same : y ≡ x = ground arith in rw (same, h) refl
    | inr miss ↦ let rest = find_where-any p q xs x (ground arith) h in rw rest (ground arith)
  ]
