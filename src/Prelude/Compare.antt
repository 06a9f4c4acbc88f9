-- ===== src/Prelude/Compare.antt =====
-- Total orders as Boolean tests: integers, texts, and `cmp` chained by `then`.
use mathlib.Core.Bool.{Bool, true, false}
use mathlib.Core.List.{[], ◌∷◌}
use mathlib.Core.Path.{◌≡◌, refl}
use native.Mathlib.Omega.{arith}
use rust_fox.Prelude.Int.{ℤ, ltb_ℤ}
use rust_fox.Prelude.Tests.{if◌then◌else◌, ltb}
use rust_fox.Prelude.Text.{Text}

-- The test is total and transitive.
pub record IsOrder {ℓ} {A : Type ℓ} (le : A → A → Bool) : Type ℓ where
  pub total : (a b : A) → le a b ≡ false → le b a ≡ true
  pub trans : (a b c : A) → le a b ≡ true → le b c ≡ true → le a c ≡ true

-- Texts are compared by code points, which is the order of their UTF-8 bytes.
abbrev pub text_le : Text → Text → Bool
text_le [] b = true
text_le (x ∷ a) [] = false
text_le (x ∷ a) (y ∷ b) =
    let rest = text_le a b in if ltb x y then true else if ltb y x then false else rest

text_le_total : (a b : Text) → text_le a b ≡ false → text_le b a ≡ true
text_le_total [] b h = ground arith
text_le_total (x ∷ a) [] h = refl
text_le_total (x ∷ a) (y ∷ b) h = ground (arith, text_le_total a b)

text_le_trans : (a b c : Text) → text_le a b ≡ true → text_le b c ≡ true → text_le a c ≡ true
text_le_trans [] b c h k = refl
text_le_trans (x ∷ a) [] c h k = ground arith
text_le_trans (x ∷ a) (y ∷ b) [] h k = ground arith
text_le_trans (x ∷ a) (y ∷ b) (z ∷ c) h k = ground (arith, text_le_trans a b c)

pub text_le-IsOrder : IsOrder text_le
text_le-IsOrder = record { total = text_le_total; trans = text_le_trans }

abbrev pub le_ℤ : ℤ → ℤ → Bool
le_ℤ a b = if ltb_ℤ b a then false else true

pub le_ℤ-IsOrder : IsOrder le_ℤ
le_ℤ-IsOrder = record { total = λ a b h. ground arith; trans = λ a b c h k. ground arith }

-- The order of the images.
abbrev pub on {ℓ κ} : {A : Type ℓ} {B : Type κ} → (A → B) → (B → B → Bool) → A → A → Bool
on key le a b = le (key a) (key b)

pub on-IsOrder {ℓ κ} :
    {A : Type ℓ} {B : Type κ} (key : A → B) {le : B → B → Bool} → IsOrder le → IsOrder (on key le)
on-IsOrder key o = record {
  total = λ a b h. o.total (key a) (key b) h;
  trans = λ a b c h k. o.trans (key a) (key b) (key c) h k;
}

-- `a.cmp(b).then(…)`, not greater.
abbrev pub then_by {ℓ} : {A : Type ℓ} → (A → A → Bool) → (A → A → Bool) → A → A → Bool
then_by le next a b = if le a b then (if le b a then next a b else true) else false

pub then_by-IsOrder {ℓ} :
    {A : Type ℓ} {le next : A → A → Bool} → IsOrder le → IsOrder next → IsOrder (then_by le next)
then_by-IsOrder o p = record {
  total = λ a b h. ground (arith, o.total a b, p.total a b);
  trans = λ a b c h k. ground (
    arith,
    o.trans a b c,
    o.trans c b a,
    o.trans b c a,
    o.trans c a b,
    o.trans b a c,
    p.trans a b c,
  );
}
