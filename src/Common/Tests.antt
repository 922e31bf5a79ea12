-- ===== src/Common/Tests.antt =====
-- Boolean tests on the native numbers, the conditional, and a type's own equality test.
use Prim.Native.Nat.{ℕ, compare, Ordering}
use mathlib.Core.Path.{◌≡◌, refl}
use mathlib.Core.Logic.{◌↔◌, ◌⊎◌, inl, inr}
use mathlib.Core.Bool.{Bool, true, false}
use mathlib.Core.Option.{Option, none, some}
use native.Mathlib.Omega.{arith}

abbrev pub ltb : ℕ → ℕ → Bool
ltb a b = elim (compare a b) [ Ordering.lt ↦ true | _ ↦ false ]

abbrev pub leb : ℕ → ℕ → Bool
leb a b = elim (compare a b) [ Ordering.gt ↦ false | _ ↦ true ]

abbrev pub nat_eq : ℕ → ℕ → Bool
nat_eq a b = elim (compare a b) [ Ordering.eq ↦ true | _ ↦ false ]

infix 1 if◌then◌else◌
abbrev pub if◌then◌else◌ {ℓ} : {A : Type ℓ} → Bool → A → A → A
if true then x else y = x
if false then x else y = y

pub nat_eq_iff : (a b : ℕ) → (nat_eq a b ≡ true) ↔ (a ≡ b)
nat_eq_iff a b = ground arith

-- To split on a computed value and keep the equation.
pub Bool-cases : (b : Bool) → (b ≡ true) ⊎ (b ≡ false)
Bool-cases true = inl refl
Bool-cases false = inr refl

pub Option-cases {ℓ} : {A : Type ℓ} (o : Option A) → (o ≡ none) ⊎ ((a : A) × (o ≡ some a))
Option-cases none = inl refl
Option-cases (some a) = inr (a, refl)

-- Go's `==` on a type of map keys.
pub record Eq (K : Type 0) : Type 0 where
  pub same : K → K → Bool
  pub same_iff : (x y : K) → (same x y ≡ true) ↔ (x ≡ y)

infix 50 ◌==◌
abbrev pub ◌==◌ : {K : Type 0} ⦃o : Eq K⦄ → K → K → Bool
◌==◌ ⦃o⦄ x y = o.same x y

module _ {K : Type 0} ⦃o : Eq K⦄ where
  pub ==_iff : (x y : K) → ((x == y) ≡ true) ↔ (x ≡ y)
  ==_iff x y = o.same_iff x y

  pub ==-refl : (x : K) → (x == x) ≡ true
  ==-refl x = (o.same_iff x x).1 refl

  pub ==-eq-false : (x y : K) → (x ≡ y → ⊥) → (x == y) ≡ false
  ==-eq-false x y h = elim (Bool-cases (x == y)) [
    | inl is ↦ absurd (h ((o.same_iff x y).0 is))
    | inr other ↦ other
  ]

instance abbrev pub ℕ-Eq : Eq ℕ
ℕ-Eq = record { same = nat_eq; same_iff = nat_eq_iff }
