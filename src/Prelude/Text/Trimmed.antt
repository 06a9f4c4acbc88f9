-- ===== src/Prelude/Text/Trimmed.antt =====
-- A text without white space is trimmed.
use mathlib.Core.List.{reverse-cons, reverse-reverse}
use rust_fox.Prelude.Text.{Text, is_whitespace, trim, trim_start_matches, trim_end_matches}
use rust_fox.Prelude.Lists.{all}
use mathlib.Core.Path.{◌≡◌, refl, ap, ◌∙◌}
use mathlib.Core.Bool.{Bool, true, not, ◌&&◌}
use mathlib.Core.List.{[], ◌∷◌, ◌++◌, reverse}
use native.Mathlib.Omega.{arith}
use Prim.Native.Nat.{ℕ}

module _ (p : ℕ → Bool) where
  all-append : (s t : Text) → all p (s ++ t) ≡ (all p s && all p t)
  all-append [] t = refl
  all-append (c ∷ s) t = ground (arith, all-append s t)

  all-reverse : (s : Text) → all p s ≡ true → all p (reverse s) ≡ true
  all-reverse [] h = refl
  all-reverse (c ∷ s) h =
      rw (reverse-cons c s, all-append (reverse s) (c ∷ [])) (ground (arith, all-reverse s))

trim_start-solid_text :
    (s : Text) → all (λ c. not (is_whitespace c)) s ≡ true → trim_start_matches is_whitespace s ≡ s
unfolding trim_start_matches
trim_start-solid_text [] h = refl
trim_start-solid_text (c ∷ s) h = ground arith

pub trim-solid_text : (s : Text) → all (λ c. not (is_whitespace c)) s ≡ true → trim s ≡ s
unfolding trim trim_end_matches
trim-solid_text s h =
    ap (trim_end_matches is_whitespace) (trim_start-solid_text s h)
    ∙ ap reverse (trim_start-solid_text (reverse s) (all-reverse (λ c. not (is_whitespace c)) s h))
    ∙ reverse-reverse s
