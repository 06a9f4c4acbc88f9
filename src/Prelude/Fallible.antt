-- ===== src/Prelude/Fallible.antt =====
-- The result of code that may panic (an index out of bounds, an overflow check).

pub data Fallible {ℓ} (A : Type ℓ) : Type ℓ where
  returns : A → Fallible A
  panics : Fallible A

infixl 5 ◌>>=◌
abbrev pub ◌>>=◌ {ℓ κ} : {A : Type ℓ} {B : Type κ} → Fallible A → (A → Fallible B) → Fallible B
returns a >>= f = f a
panics >>= f = panics
