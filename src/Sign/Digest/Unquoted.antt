-- ===== src/Sign/Digest/Unquoted.antt =====
-- A quoted text is read back, and the name in front of it.
use mathlib.Core.List.{reverse-reverse, reverse-append}
use rust_fox.Prelude.{
  if◌then◌else◌, ◌&&◌, ℕ, ◌≤◌, ◌≡◌, refl, ap, ◌∙◌, Bool, true, false, [], ◌∷◌, ◌++◌, reverse,
  Option, none, some, all, leb, arith,
}
use rust_fox.Prelude.Text.{
  Text, codes, utf8_len, is_whitespace, strip_prefix, starts_with, ends_with, split_once, tail_of,
  strip_suffix,
}
use rust_fox.Sign.Digest.{unescape, inner, strip_quotes, unquote}
use rust_fox.Sign.Digest.Scanned.{is_quotable, is_name_char, Pair, write_onto, IsPair}
use rust_fox.Sign.Digest.Parts.{trim-solid}

unescape-quotable : (x : Text) → is_quotable x ≡ true → unescape x ≡ x
unfolding unescape
unescape-quotable [] h = refl
unescape-quotable (c ∷ []) h = refl
unescape-quotable (c ∷ d ∷ x) h = ground (arith, unescape-quotable (d ∷ x))

utf8_len-closed : (x : Text) (c : ℕ) → 1 ≤ utf8_len (x ++ c ∷ [])
utf8_len-closed [] c = ground arith
utf8_len-closed (d ∷ x) c = ground (arith, utf8_len-closed x c)

long_enough : (x : Text) → leb 2 (utf8_len (b'"' ∷ (x ++ b'"' ∷ []))) ≡ true
long_enough x = ground (arith, utf8_len-closed x b'"')

inner-quoted : (x : Text) → inner (b'"' ∷ (x ++ b'"' ∷ [])) ≡ x
unfolding inner
inner-quoted x = ap (λ t. reverse (tail_of t)) (reverse-append x (b'"' ∷ [])) ∙ reverse-reverse x

-- What `ends_with` looks for in the text turned round.
abbrev quote_first : Text → Bool
unfolding strip_prefix
quote_first r =
    elim (elim (strip_prefix (codes "\"") r) as (λ _. Option Text) [
      | none ↦ none
      | some q ↦ some (reverse q)
    ])
      as (λ _. Bool) [ none ↦ false | some _ ↦ true ]

ends_with-quoted : (x : Text) → ends_with (b'"' ∷ (x ++ b'"' ∷ [])) (codes "\"") ≡ true
unfolding strip_suffix strip_prefix quote_first
ends_with-quoted x = ap quote_first (reverse-append (b'"' ∷ x) (b'"' ∷ []))

starts_with-quoted : (s : Text) → starts_with (b'"' ∷ s) (codes "\"") ≡ true
unfolding strip_prefix
starts_with-quoted s = refl

if_all :
    (a b c : Bool) (t u : Text)
    → a ≡ true
    → b ≡ true
    → c ≡ true
    → (if a && (b && c) then u else t) ≡ u
if_all a b c t u h k l = ground arith

strip_quotes-quoted : (x : Text) → is_quotable x ≡ true → strip_quotes (b'"' ∷ (x ++ b'"' ∷ [])) ≡ x
unfolding strip_quotes
strip_quotes-quoted x h =
    if_all _ _ _ _ _ (long_enough x) (starts_with-quoted (x ++ b'"' ∷ [])) (ends_with-quoted x)
    ∙ ap unescape (inner-quoted x)
    ∙ unescape-quotable x h

quote-solid : is_whitespace b'"' ≡ false
unfolding is_whitespace
quote-solid = refl

pub unquote-quoted : (x : Text) → is_quotable x ≡ true → unquote (b'"' ∷ (x ++ b'"' ∷ [])) ≡ x
unfolding unquote
unquote-quoted x h =
    ap strip_quotes (trim-solid b'"' b'"' x quote-solid quote-solid).0 ∙ strip_quotes-quoted x h

split_once-letters :
    (name s : Text)
    → all is_name_char name ≡ true
    → split_once (codes "=") (name ++ b'=' ∷ s) ≡ some (name, s)
unfolding split_once strip_prefix is_name_char
split_once-letters [] s h = refl
split_once-letters (c ∷ name) s h = ground (arith, split_once-letters name s)

-- The name stands in front of the first `=`.
pub split_once-pair :
    (p : Pair)
    → IsPair p
    → split_once (codes "=") (write_onto p []) ≡ some (p.0, b'"' ∷ (p.1 ++ b'"' ∷ []))
unfolding write_onto
split_once-pair (name, value) h = split_once-letters name (b'"' ∷ (value ++ b'"' ∷ [])) h.name
