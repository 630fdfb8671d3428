-- ===== src/Base/Tests.antt =====
-- Boolean tests on the native numbers, the conditional, and the case splits that keep an equation.
use Prim.Native.Nat.{ℕ, ◌≤◌, compare, Ordering}
use mathlib.Core.Path.{◌≡◌, refl}
use mathlib.Core.Logic.{◌↔◌, ◌⊎◌, inl, inr}
use mathlib.Core.Bool.{Bool, true, false, ◌&&◌}
use mathlib.Core.Option.{Option, none, some}
use mathlib.Core.List.{List, [], ◌∷◌}
use native.Mathlib.Omega.{arith}

abbrev pub ltb : ℕ → ℕ → Bool
ltb a b = elim (compare a b) [ Ordering.lt ↦ true | _ ↦ false ]

abbrev pub leb : ℕ → ℕ → Bool
leb a b = elim (compare a b) [ Ordering.gt ↦ false | _ ↦ true ]

infix 50 ◌==◌
abbrev pub ◌==◌ : ℕ → ℕ → Bool
a == b = elim (compare a b) [ Ordering.eq ↦ true | _ ↦ false ]

infix 1 if◌then◌else◌
abbrev pub if◌then◌else◌ {ℓ} : {A : Type ℓ} → Bool → A → A → A
if true then x else y = x
if false then x else y = y

pub ==_iff : (a b : ℕ) → ((a == b) ≡ true) ↔ (a ≡ b)
==_iff a b = ground arith

pub Bool-cases : (b : Bool) → (b ≡ true) ⊎ (b ≡ false)
Bool-cases true = inl refl
Bool-cases false = inr refl

pub Option-cases {ℓ} : {A : Type ℓ} (o : Option A) → (o ≡ none) ⊎ ((a : A) × (o ≡ some a))
Option-cases none = inl refl
Option-cases (some a) = inr (a, refl)

-- A C string: its bytes, without the closing NUL.
abbrev pub Bytes : Type 0
Bytes = List ℕ

-- `strcmp (a, b) == 0`
unfoldable pub strcmp_eq : Bytes → Bytes → Bool
strcmp_eq [] [] = true
strcmp_eq (x ∷ a) (y ∷ b) = x == y && strcmp_eq a b
strcmp_eq _ _ = false

pub strcmp_eq_iff : (a b : Bytes) → (strcmp_eq a b ≡ true) ↔ (a ≡ b)
unfolding strcmp_eq
strcmp_eq_iff (x ∷ a) (y ∷ b) = ground (arith, strcmp_eq_iff a b)
strcmp_eq_iff _ _ = ground arith

pub strcmp_eq_refl : (a : Bytes) → strcmp_eq a a ≡ true
strcmp_eq_refl a = (strcmp_eq_iff a a).1 refl

pub ltb_not : (a b : ℕ) → b ≤ a → ltb a b ≡ false
ltb_not a b h = ground arith
