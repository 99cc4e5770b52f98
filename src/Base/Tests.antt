-- ===== src/Base/Tests.antt =====
-- Python's `if`, `<`, `<=`, `==` and `in`.
use Prim.Native.Nat.{ℕ, compare, Ordering}
use Prim.Native.String.{String}
use mathlib.Core.Path.{◌≡◌, refl}
use mathlib.Core.Logic.{◌↔◌, ◌⊎◌, inl, inr}
use mathlib.Core.Bool.{Bool, true, false, ◌||◌, ◌&&◌}
use mathlib.Core.Option.{Option, none, some}
use mathlib.Core.List.{List, [], ◌∷◌}
use native.Mathlib.Omega.{arith}
use text.Mathlib.Text
use text.Mathlib.TextEquality.{eq_iff}

abbrev pub ltb : ℕ → ℕ → Bool
ltb a b = elim (compare a b) [ Ordering.lt ↦ true | _ ↦ false ]

abbrev pub leb : ℕ → ℕ → Bool
leb a b = elim (compare a b) [ Ordering.gt ↦ false | _ ↦ true ]

infix 1 if◌then◌else◌
abbrev pub if◌then◌else◌ {ℓ} : {A : Type ℓ} → Bool → A → A → A
if true then x else y = x
if false then x else y = y

pub Bool-cases : (b : Bool) → (b ≡ true) ⊎ (b ≡ false)
Bool-cases true = inl refl
Bool-cases false = inr refl

pub Option-cases {ℓ} : {A : Type ℓ} (o : Option A) → (o ≡ none) ⊎ ((a : A) × (o ≡ some a))
Option-cases none = inl refl
Option-cases (some a) = inr (a, refl)

-- A type whose values Python compares by `==`.
pub record Comparable {ℓ} (A : Type ℓ) : Type ℓ where
  pub equals : A → A → Bool
  pub equals_iff : (x y : A) → (equals x y ≡ true) ↔ (x ≡ y)

module _ {ℓ} {A : Type ℓ} ⦃comparable : Comparable A⦄ where
  infix 50 ◌==◌
  abbrev pub ◌==◌ : A → A → Bool
  x == y = comparable.equals x y

abbrev pub nat_equals : ℕ → ℕ → Bool
nat_equals x y = elim (compare x y) [ Ordering.eq ↦ true | _ ↦ false ]

pub nat_equals_iff : (x y : ℕ) → (nat_equals x y ≡ true) ↔ (x ≡ y)
nat_equals_iff x y = ground arith

instance abbrev pub nat_eq : Comparable ℕ
nat_eq = record { equals = nat_equals; equals_iff = nat_equals_iff }

instance abbrev pub string_eq : Comparable String
string_eq = record { equals = Text.◌==◌; equals_iff = eq_iff }

module _ {ℓ} {A : Type ℓ} ⦃comparable : Comparable A⦄ where
  abbrev pub list_equals : List A → List A → Bool
  list_equals [] [] = true
  list_equals (x ∷ xs) (y ∷ ys) = x == y && list_equals xs ys
  list_equals _ _ = false

  pub list_equals_iff : (xs ys : List A) → (list_equals xs ys ≡ true) ↔ (xs ≡ ys)
  list_equals_iff [] [] = (λ _. refl, λ _. refl)
  list_equals_iff [] (y ∷ ys) = ground arith
  list_equals_iff (x ∷ xs) [] = ground arith
  list_equals_iff (x ∷ xs) (y ∷ ys) =
      ground (arith, comparable.equals_iff x y, list_equals_iff xs ys)

  instance abbrev pub list_eq : Comparable (List A)
  list_eq = record { equals = list_equals; equals_iff = list_equals_iff }

  pub eq_self : (a : A) → (a == a) ≡ true
  eq_self a = (comparable.equals_iff a a).1 refl

-- `s in xs`, for texts
abbrev pub contains : List String → String → Bool
contains [] s = false
contains (x ∷ xs) s = x == s || contains xs s
