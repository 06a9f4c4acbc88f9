-- ===== src/Prelude/Text/Parts.antt =====
-- Splitting undoes joining, and decimal texts are digits.
use Prim.Native.Nat.{ℕ, ◌+◌, ◌/◌, ◌%◌, ◌<◌}
use mathlib.Core.Path.{◌≡◌, refl, sym, ap, ◌∙◌}
use mathlib.Core.Bool.{Bool, true, not, ◌&&◌}
use mathlib.Core.List.{List, [], ◌∷◌, ◌++◌}
use mathlib.Core.Logic.{dif_pos, dif_neg}
use mathlib.Core.WellFounded.{Acc}
use native.Mathlib.Bridge.{le_prop}
use native.Mathlib.Decide.{dec_lt}
use native.Mathlib.Omega.{arith}
use rust_fox.Prelude.Lists.{all, All}
use rust_fox.Prelude.Order.{lt_wf}
use rust_fox.Prelude.Tests.{eqb, leb}
use rust_fox.Prelude.Text.{Text, split, join, show_onto, show}

module _ (sep : ℕ) where
  abbrev pub lacks : Text → Bool
  lacks = all (λ c. not (eqb c sep))

  split-lacking : (s : Text) → lacks s ≡ true → split sep s ≡ s ∷ []
  unfolding split
  split-lacking [] h = refl
  split-lacking (c ∷ s) h = ground (arith, split-lacking s)

  split-append : (s rest : Text) → lacks s ≡ true → split sep (s ++ sep ∷ rest) ≡ s ∷ split sep rest
  unfolding split
  split-append [] rest h = ground arith
  split-append (c ∷ s) rest h = ground (arith, split-append s rest)

  pub split-join :
      (p : Text) (ps : List Text)
      → All (λ s. lacks s ≡ true) (p ∷ ps)
      → split sep (join (sep ∷ []) (p ∷ ps)) ≡ p ∷ ps
  unfolding join
  split-join p [] (h, _) = split-lacking p h
  split-join p (q ∷ ps) (h, hs) =
      split-append p (join (sep ∷ []) (q ∷ ps)) h ∙ ap (λ l. p ∷ l) (split-join q ps hs)

  -- Parts without the separator are given by what they are joined to.
  pub join_injective :
      (p q : Text) (ps qs : List Text)
      → All (λ s. lacks s ≡ true) (p ∷ ps)
      → All (λ s. lacks s ≡ true) (q ∷ qs)
      → join (sep ∷ []) (p ∷ ps) ≡ join (sep ∷ []) (q ∷ qs)
      → p ∷ ps ≡ q ∷ qs
  join_injective p q ps qs h k e = sym (split-join p ps h) ∙ ap (split sep) e ∙ split-join q qs k

abbrev pub is_digit : ℕ → Bool
is_digit c = leb b'0' c && leb c b'9'

digits-show_onto :
    (n : ℕ) (w : Acc ◌<◌ n) (out : Text)
    → all is_digit out ≡ true
    → all is_digit (show_onto n w out) ≡ true
unfolding show_onto
digits-show_onto n (Acc.intro _ smaller) out h = elim (dec_lt 0 (n / 10)) [
  | yes more ↦ rw (dif_pos (dec_lt 0 (n / 10)) le_prop more) (
      digits-show_onto (n / 10) (smaller (n / 10) (omega arith)) ((b'0' + n % 10) ∷ out)
        (ground (arith, h)))
  | no last ↦ rw (dif_neg (dec_lt 0 (n / 10)) last) (ground (arith, h))
]

pub digits-show : (n : ℕ) → all is_digit (show n) ≡ true
unfolding show
digits-show n = digits-show_onto n (lt_wf.apply n) [] refl

pub digits-lacking : (s : Text) → all is_digit s ≡ true → lacks 10 s ≡ true
digits-lacking [] h = refl
digits-lacking (c ∷ s) h = ground (arith, digits-lacking s)
