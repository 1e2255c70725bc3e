-- ===== src/Base/Tests.antt =====
-- Boolean tests on numbers and optional numbers, the conditional, and splits on computed values.
use Prim.Native.Nat.{ℕ, ◌≤◌, ◌<◌, compare, Ordering}
use mathlib.Core.Path.{◌≡◌, refl}
use mathlib.Core.Logic.{◌↔◌, ◌⊎◌, inl, inr}
use mathlib.Core.Bool.{Bool, true, false, ◌&&◌, ◌||◌}
use mathlib.Core.Option.{Option, none, some}
use native.Mathlib.Omega.{arith}

abbrev pub ltb : ℕ → ℕ → Bool
ltb a b = elim (compare a b) [ Ordering.lt ↦ true | _ ↦ false ]

abbrev pub leb : ℕ → ℕ → Bool
leb a b = elim (compare a b) [ Ordering.gt ↦ false | _ ↦ true ]

infix 50 ◌==◌
abbrev pub ◌==◌ : ℕ → ℕ → Bool
a == b = elim (compare a b) [ Ordering.eq ↦ true | _ ↦ false ]

infix 1 if◌then◌else◌
abbrev pub if◌then◌else◌ {ℓ} : {A : Type ℓ} → Bool → A → A → A
if true then x else y = x
if false then x else y = y

pub ltb→lt : (a b : ℕ) → ltb a b ≡ true → a < b
ltb→lt a b h = ground arith

pub leb→le : (a b : ℕ) → leb a b ≡ true → a ≤ b
leb→le a b h = ground arith

pub le→leb : (a b : ℕ) → a ≤ b → leb a b ≡ true
le→leb a b h = ground arith

pub lt→ltb : (a b : ℕ) → a < b → ltb a b ≡ true
lt→ltb a b h = ground arith

pub ==_iff : (a b : ℕ) → ((a == b) ≡ true) ↔ (a ≡ b)
==_iff a b = ground arith

pub Bool-cases : (b : Bool) → (b ≡ true) ⊎ (b ≡ false)
Bool-cases true = inl refl
Bool-cases false = inr refl

pub Option-cases {ℓ} : {A : Type ℓ} (o : Option A) → (o ≡ none) ⊎ ((a : A) × (o ≡ some a))
Option-cases none = inl refl
Option-cases (some a) = inr (a, refl)

-- Pairs of an hour and a minute, as Python orders pairs.
abbrev pub clock_ltb : ℕ × ℕ → ℕ × ℕ → Bool
clock_ltb (h, m) (h', m') = ltb h h' || h == h' && ltb m m'

-- A column that may be NULL: `c IS NULL OR c <= t`, and `c IS NULL OR c < t`.
abbrev pub null_or_le : Option ℕ → ℕ → Bool
null_or_le none t = true
null_or_le (some c) t = leb c t

abbrev pub null_or_lt : Option ℕ → ℕ → Bool
null_or_lt none t = true
null_or_lt (some c) t = ltb c t

-- A comparison with NULL is never true.
abbrev pub some_and_lt : Option ℕ → ℕ → Bool
some_and_lt none t = false
some_and_lt (some c) t = ltb c t

abbrev pub is_none {ℓ} : {A : Type ℓ} → Option A → Bool
is_none none = true
is_none (some a) = false

-- What holds of the second part on both branches holds of the second part.
pub if-snd {ℓ κ ι} :
    {A : Type ℓ} {B : Type κ} (P : B → Type ι) (c : Bool) (a b : A × B)
    → P a.1
    → P b.1
    → P (if c then a else b).1
if-snd P true a b h k = h
if-snd P false a b h k = k

pub if-keeps {ℓ κ} :
    {B : Type ℓ} (P : B → Type κ) (c : Bool) (a b : B) → P a → P b → P (if c then a else b)
if-keeps P true a b h k = h
if-keeps P false a b h k = k

pub if_true {ℓ κ} :
    {B : Type ℓ} (P : B → Type κ) (c : Bool) (a b : B) → c ≡ true → P a → P (if c then a else b)
if_true P true a b e h = h
if_true P false a b e h = cc
