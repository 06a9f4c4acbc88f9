-- ===== src/Prelude/Text.antt =====
-- `str` and `String` as lists of code points, with the methods of the standard library that the
-- source calls.
pub mod Parts
pub mod Shown
pub mod Trimmed
use Prim.Native.Nat.{ℕ, ◌+◌, ◌-◌, ◌/◌, ◌%◌, ◌<◌}
use Prim.Native.Char.{code}
use Prim.Native.String.{String}
use mathlib.Core.Logic.{dite}
use mathlib.Core.Bool.{Bool, true, false, ◌&&◌, ◌||◌}
use mathlib.Core.Option.{Option, none, some}
use mathlib.Core.List.{List, [], ◌∷◌, ◌++◌, map, reverse}
use mathlib.Core.WellFounded.{Acc}
use native.Mathlib.Decide.{dec_lt}
use native.Mathlib.Omega.{arith}
use rust_fox.Prelude.Keys.{nat_eq, list_eq, ◌==◌}
use rust_fox.Prelude.Order.{lt_wf}
use rust_fox.Prelude.Tests.{leb, eqb, if◌then◌else◌}

abbrev pub Text : Type 0
Text = List ℕ

-- The code points of a literal.
abbrev pub codes : String → Text
codes String.[] = []
codes (String.◌∷◌ c s) = code c ∷ codes s

abbrev pub is_empty : Text → Bool
is_empty [] = true
is_empty (c ∷ s) = false

-- `s.len()`: the bytes of the UTF-8 form.
abbrev pub utf8_len : Text → ℕ
utf8_len [] = 0
utf8_len (c ∷ s) =
    (if leb c 0x7f then 1 else if leb c 0x7ff then 2 else if leb c 0xffff then 3 else 4)
    + utf8_len s

abbrev pub last_char : Text → Option ℕ
last_char [] = none
last_char (c ∷ []) = some c
last_char (c ∷ d ∷ s) = last_char (d ∷ s)

-- `&s[1..]` behind an ASCII character.
abbrev pub tail_of : Text → Text
tail_of [] = []
tail_of (c ∷ s) = s

abbrev pub in_range : ℕ → ℕ → ℕ → Bool
in_range lo hi c = leb lo c && leb c hi

-- `char::is_whitespace`, the Unicode property White_Space.
unfoldable pub is_whitespace : ℕ → Bool
is_whitespace c =
    in_range 0x09 0x0d c
    || eqb c 0x20
    || eqb c 0x85
    || eqb c 0xa0
    || eqb c 0x1680
    || in_range 0x2000 0x200a c
    || eqb c 0x2028
    || eqb c 0x2029
    || eqb c 0x202f
    || eqb c 0x205f
    || eqb c 0x3000

-- `trim_start_matches` and `trim_end_matches` with a test on characters.
unfoldable pub trim_start_matches : (ℕ → Bool) → Text → Text
trim_start_matches p [] = []
trim_start_matches p (c ∷ s) = if p c then trim_start_matches p s else c ∷ s

unfoldable pub trim_end_matches : (ℕ → Bool) → Text → Text
unfolding trim_start_matches
trim_end_matches p s = reverse (trim_start_matches p (reverse s))

unfoldable pub trim : Text → Text
unfolding is_whitespace trim_start_matches trim_end_matches
trim s = trim_end_matches is_whitespace (trim_start_matches is_whitespace s)

unfoldable pub strip_prefix : Text → Text → Option Text
strip_prefix [] s = some s
strip_prefix (p ∷ ps) [] = none
strip_prefix (p ∷ ps) (c ∷ s) = if eqb p c then strip_prefix ps s else none

abbrev pub starts_with : Text → Text → Bool
starts_with s p = elim (strip_prefix p s) [ none ↦ false | some _ ↦ true ]

unfoldable pub strip_suffix : Text → Text → Option Text
unfolding strip_prefix
strip_suffix p s = elim (strip_prefix (reverse p) (reverse s)) [
  | none ↦ none
  | some r ↦ some (reverse r)
]

abbrev pub ends_with : Text → Text → Bool
ends_with s p = elim (strip_suffix p s) [ none ↦ false | some _ ↦ true ]

abbrev pub before : ℕ → Option (Text × Text) → Option (Text × Text)
before c none = none
before c (some (a, b)) = some (c ∷ a, b)

-- `split_once` with a pattern: what stands before the first occurrence, and what follows it.
unfoldable pub split_once : Text → Text → Option (Text × Text)
unfolding strip_prefix
split_once pat [] = elim (strip_prefix pat []) [ none ↦ none | some r ↦ some ([], r) ]
split_once pat (c ∷ s) = elim (strip_prefix pat (c ∷ s)) [
  | none ↦ before c (split_once pat s)
  | some r ↦ some ([], r)
]

-- `s.contains(pat)`
abbrev pub contains : Text → Text → Bool
contains s pat = elim (split_once pat s) [ none ↦ false | some _ ↦ true ]

-- The first part is the one that the character belongs to.
abbrev pub grow : ℕ → List Text → List Text
grow c [] = (c ∷ []) ∷ []
grow c (p ∷ ps) = (c ∷ p) ∷ ps

-- `s.split(sep)` on one character: at least one part, and one more for each separator.
unfoldable pub split : ℕ → Text → List Text
split sep [] = [] ∷ []
split sep (c ∷ s) = let parts = split sep s in if eqb c sep then [] ∷ parts else grow c parts

-- `parts.join(sep)`
unfoldable pub join : Text → List Text → Text
join sep [] = []
join sep (p ∷ []) = p
join sep (p ∷ q ∷ ps) = p ++ (sep ++ join sep (q ∷ ps))

abbrev pub ascii_upper : ℕ → ℕ
ascii_upper c = if in_range b'a' b'z' c then c - 32 else c

abbrev pub ascii_lower : ℕ → ℕ
ascii_lower c = if in_range b'A' b'Z' c then c + 32 else c

unfoldable pub to_ascii_uppercase : Text → Text
to_ascii_uppercase = map ascii_upper

unfoldable pub eq_ignore_ascii_case : Text → Text → Bool
eq_ignore_ascii_case a b = map ascii_lower a == map ascii_lower b

-- Decimal digits, in front of `out`.
show_onto : (n : ℕ) → Acc ◌<◌ n → Text → Text
show_onto n (Acc.intro _ smaller) out =
    dite (dec_lt 0 (n / 10))
      (λ h. show_onto (n / 10) (smaller (n / 10) (omega arith)) ((b'0' + n % 10) ∷ out))
      (λ _. (b'0' + n % 10) ∷ out)

-- `to_string` of an unsigned integer.
unfoldable pub show : ℕ → Text
unfolding show_onto lt_wf dec_lt
show n = show_onto n (lt_wf.apply n) []
