-- ===== src/Sign/Digest/Answer/Replaced.antt =====
-- Taking the empty opaque value out of an answer leaves parameters without commas as they are.
use rust_fox.Prelude.{
  ℕ, ◌≡◌, refl, ap, ◌∙◌, Bool, true, false, not, List, [], ◌∷◌, ◌++◌, All, all, eqb, arith,
}
use rust_fox.Prelude.Text.{Text, codes, starts_with, strip_prefix}
use rust_fox.Sign.Digest.Scanned.{Pair, write_onto, write_behind}
use rust_fox.Sign.Digest.Answer.{replace}

abbrev pub pattern : Text
pattern = codes ", opaque=,"

-- As the source calls it.
unfoldable pub without_opaque : Text → Text
unfolding replace
without_opaque = replace pattern (codes ",") 0

abbrev pub lacks_comma : Text → Bool
lacks_comma = all (λ c. not (eqb c b','))

without_opaque-cons :
    (c : ℕ) (s : Text)
    → starts_with (c ∷ s) pattern ≡ false
    → without_opaque (c ∷ s) ≡ c ∷ without_opaque s
unfolding without_opaque replace
without_opaque-cons c s h = ground arith

starts_with-plain : (c : ℕ) (s : Text) → eqb c b',' ≡ false → starts_with (c ∷ s) pattern ≡ false
unfolding strip_prefix
starts_with-plain c s h = ground arith

pub without_opaque-append :
    (s t : Text) → lacks_comma s ≡ true → without_opaque (s ++ t) ≡ s ++ without_opaque t
without_opaque-append [] t h = refl
without_opaque-append (c ∷ s) t h =
    without_opaque-cons c (s ++ t) (starts_with-plain c (s ++ t) (ground arith))
    ∙ ap (λ r. c ∷ r) (without_opaque-append s t (ground arith))

-- No commas, and another name than the opaque value.
abbrev is_other : Text → Bool
is_other [] = false
is_other (c ∷ s) = not (eqb c b'o')

pub record IsPlain (p : Pair) : Type 0 where
  pub name : lacks_comma p.0 ≡ true
  pub other : is_other p.0 ≡ true
  pub value : lacks_comma p.1 ≡ true

pub without_opaque-write_onto :
    (p : Pair) (s : Text)
    → IsPlain p
    → without_opaque (write_onto p s) ≡ write_onto p (without_opaque s)
unfolding write_onto
without_opaque-write_onto (name, value) s h =
    without_opaque-append name (b'=' ∷ b'"' ∷ (value ++ b'"' ∷ s)) h.name
    ∙ ap (λ t. name ++ t)
        (without_opaque-append (codes "=\"") (value ++ b'"' ∷ s) refl
          ∙ ap (λ t. b'=' ∷ b'"' ∷ t)
              (without_opaque-append value (b'"' ∷ s) h.value
                ∙ ap (λ t. value ++ t) (without_opaque-append (codes "\"") s refl)))

starts_with-other :
    (p : Pair) (s : Text) → IsPlain p → starts_with (b',' ∷ b' ' ∷ write_onto p s) pattern ≡ false
unfolding strip_prefix write_onto
starts_with-other ([], value) s h = ground (arith, h.other)
starts_with-other (c ∷ name, value) s h = ground (arith, h.other)

pub without_opaque-write_behind :
    (tail : Text) (ps : List Pair)
    → All IsPlain ps
    → without_opaque (write_behind tail ps) ≡ write_behind (without_opaque tail) ps
unfolding write_behind
without_opaque-write_behind tail [] h = refl
without_opaque-write_behind tail (p ∷ ps) (h, hs) =
    without_opaque-cons b',' (b' ' ∷ write_onto p (write_behind tail ps))
      (starts_with-other p (write_behind tail ps) h)
    ∙ ap (λ t. b',' ∷ t)
        (without_opaque-append (codes " ") (write_onto p (write_behind tail ps)) refl
          ∙ ap (λ t. b' ' ∷ t)
              (without_opaque-write_onto p (write_behind tail ps) h
                ∙ ap (write_onto p) (without_opaque-write_behind tail ps hs)))
