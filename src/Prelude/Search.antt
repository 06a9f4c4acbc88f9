-- ===== src/Prelude/Search.antt =====
-- Lemmas on prefixes, on the first occurrence of a pattern, and on doubled braces.
use Prim.Native.Nat.{ℕ, ◌+◌, ◌≤◌}
use mathlib.Core.Path.{◌≡◌, refl}
use mathlib.Core.Logic.{inl, inr}
use mathlib.Core.Bool.{Bool, true, not, ◌&&◌}
use mathlib.Core.Option.{none, some}
use mathlib.Core.List.{[], ◌∷◌, ◌++◌}
use native.Mathlib.Omega.{arith}
use rust_fox.Prelude.Lists.{length, length-append}
use rust_fox.Prelude.Tests.{eqb, Bool-cases, Option-cases}
use rust_fox.Prelude.Text.{Text, strip_prefix, split_once}

pub strip_prefix_sound : (p s r : Text) → strip_prefix p s ≡ some r → s ≡ p ++ r
unfolding strip_prefix
strip_prefix_sound [] s r h = ground arith
strip_prefix_sound (x ∷ p) [] r h = cc
strip_prefix_sound (x ∷ p) (c ∷ s) r h = elim (Bool-cases (eqb x c)) [
  | inl same ↦ ground (arith, strip_prefix_sound p s r)
  | inr apart ↦ ground arith
]

pub strip_prefix-append : (p r : Text) → strip_prefix p (p ++ r) ≡ some r
unfolding strip_prefix
strip_prefix-append [] r = refl
strip_prefix-append (x ∷ p) r = ground (arith, strip_prefix-append p r)

-- The two sides of the first occurrence give the text back.
pub split_once_sound : (pat s a b : Text) → split_once pat s ≡ some (a, b) → s ≡ a ++ (pat ++ b)
unfolding split_once
split_once_sound pat [] a b h = elim (Option-cases (strip_prefix pat [])) [
  | inl e ↦ ground arith
  | inr (r, e) ↦ ground (arith, strip_prefix_sound pat [] r e)
]
split_once_sound pat (c ∷ s) a b h = elim (Option-cases (strip_prefix pat (c ∷ s))) [
  | inr (r, e) ↦ ground (arith, strip_prefix_sound pat (c ∷ s) r e)
  | inl e ↦ elim (Option-cases (split_once pat s)) [
    | inl f ↦ ground arith
    | inr ((a', b'), f) ↦ ground (arith, split_once_sound pat s a' b' f)
  ]
]

pub length-split_once :
    (pat s a b : Text)
    → split_once pat s ≡ some (a, b)
    → length s ≡ length a + length pat + length b
length-split_once pat s a b h =
    rw (split_once_sound pat s a b h)
      (omega (arith, length-append {0} a (pat ++ b), length-append {0} pat b))

-- No two `b` in a row, and none at the end: a `b` doubled behind such a text is found there.
abbrev pub clear : ℕ → Text → Bool
clear b [] = true
clear b (c ∷ []) = not (eqb c b)
clear b (c ∷ d ∷ s) = not (eqb c b && eqb d b) && clear b (d ∷ s)

pub split_once-clear :
    (b : ℕ) (pre rest : Text)
    → clear b pre ≡ true
    → split_once (b ∷ b ∷ []) (pre ++ b ∷ b ∷ rest) ≡ some (pre, rest)
unfolding split_once strip_prefix
split_once-clear b [] rest h = ground arith
split_once-clear b (c ∷ []) rest h = ground arith
split_once-clear b (c ∷ d ∷ s) rest h = ground (arith, split_once-clear b (d ∷ s) rest)

strip_prefix-longer :
    (p s t r : Text) → strip_prefix p s ≡ some r → strip_prefix p (s ++ t) ≡ some (r ++ t)
unfolding strip_prefix
strip_prefix-longer [] s t r h = ground arith
strip_prefix-longer (x ∷ p) [] t r h = ground arith
strip_prefix-longer (x ∷ p) (c ∷ s) t r h = ground (arith, strip_prefix-longer p s t r)

strip_prefix-absent :
    (p s t : Text) → strip_prefix p s ≡ none → length p ≤ length s → strip_prefix p (s ++ t) ≡ none
unfolding strip_prefix
strip_prefix-absent [] s t h k = ground arith
strip_prefix-absent (x ∷ p) [] t h k = ground arith
strip_prefix-absent (x ∷ p) (c ∷ s) t h k = ground (arith, strip_prefix-absent p s t)

-- A first occurrence stays the first when the text goes on.
pub split_once-append :
    (pat s t a b : Text)
    → split_once pat s ≡ some (a, b)
    → split_once pat (s ++ t) ≡ some (a, b ++ t)
unfolding split_once
split_once-append [] [] [] a b h = ground arith
split_once-append [] [] (c ∷ t) a b h = ground arith
split_once-append (x ∷ p) [] t a b h = ground arith
split_once-append pat (c ∷ s) t a b h = elim (Option-cases (strip_prefix pat (c ∷ s))) [
  | inr (r, e) ↦ ground (arith, strip_prefix-longer pat (c ∷ s) t r e)
  | inl e ↦ elim (Option-cases (split_once pat s)) [
    | inl f ↦ ground arith
    | inr ((a', b'), f) ↦ ground (
      arith,
      split_once-append pat s t a' b' f,
      strip_prefix-absent pat (c ∷ s) t e,
      length-split_once pat s a' b' f,
    )
  ]
]
