-- ===== src/Prelude/Keys.antt =====
-- `==` as an interface (`PartialEq`), with instances for numbers, lists and pairs.
use Prim.Native.Nat.{ℕ}
use mathlib.Core.Path.{◌≡◌}
use mathlib.Core.Logic.{◌↔◌}
use mathlib.Core.Bool.{Bool, true, false, ◌&&◌}
use mathlib.Core.List.{List, [], ◌∷◌}
use native.Mathlib.Omega.{arith}
use rust_fox.Prelude.Tests.{eqb, eqb_iff}

-- `PartialEq::eq`, with the law that it decides equality.
pub record Eq {ℓ} (K : Type ℓ) : Type ℓ where
  pub beq : (this other : K) → Bool
  pub beq_iff : (this other : K) → (beq this other ≡ true) ↔ (this ≡ other)

abbrev pub ◌==◌ {ℓ} : {K : Type ℓ} ⦃tests : Eq K⦄ (this other : K) → Bool
◌==◌ ⦃tests⦄ = tests.beq

infix 50 ◌==◌
instance abbrev pub nat_eq : Eq ℕ
nat_eq = record { beq = eqb; beq_iff = eqb_iff }

module _ {ℓ} {A : Type ℓ} ⦃e : Eq A⦄ where
  abbrev pub list_beq : List A → List A → Bool
  list_beq [] [] = true
  list_beq (x ∷ xs) (y ∷ ys) = (x == y) && list_beq xs ys
  list_beq _ _ = false

  pub list_beq_iff : (xs ys : List A) → (list_beq xs ys ≡ true) ↔ (xs ≡ ys)
  list_beq_iff [] [] = ground arith
  list_beq_iff (x ∷ xs) (y ∷ ys) = ground (arith, e.beq_iff x y, list_beq_iff xs ys)
  list_beq_iff _ _ = ground arith

  pub beq_refl : (x : A) → (x == x) ≡ true
  beq_refl x = ground (arith, e.beq_iff x x)

instance abbrev pub list_eq {ℓ} : {A : Type ℓ} ⦃e : Eq A⦄ → Eq (List A)
list_eq = record { beq = list_beq; beq_iff = list_beq_iff }

module _ {ℓ κ} {A : Type ℓ} {B : Type κ} ⦃e : Eq A⦄ ⦃f : Eq B⦄ where
  abbrev pub pair_beq : A × B → A × B → Bool
  pair_beq (a, b) (c, d) = (a == c) && (b == d)

  pub pair_beq_iff : (p q : A × B) → (pair_beq p q ≡ true) ↔ (p ≡ q)
  pair_beq_iff (a, b) (c, d) = ground (arith, e.beq_iff a c, f.beq_iff b d)

instance abbrev pub pair_eq {ℓ κ} : {A : Type ℓ} {B : Type κ} ⦃e : Eq A⦄ ⦃f : Eq B⦄ → Eq (A × B)
pair_eq = record { beq = pair_beq; beq_iff = pair_beq_iff }

module _ {ℓ} {A : Type ℓ} ⦃e : Eq A⦄ where
  pub beq_sym : (x y : A) → (x == y) ≡ (y == x)
  beq_sym x y = ground (arith, e.beq_iff x y, e.beq_iff y x)
