-- ===== src/Sign/Digest/Scanned.antt =====
-- A list of quoted parameters is cut off before the next scheme, split, and unquoted.
use rust_fox.Prelude.{
  ℕ, ◌≡◌, refl, sym, ap, ◌∙◌, Bool, true, false, ◌&&◌, ◌||◌, not, List, [], ◌∷◌, ◌++◌, append-nil,
  append_assoc, Option, none, some, all, leb, eqb, arith,
}
use rust_fox.Prelude.Text.{Text, is_empty}
use rust_fox.Sign.Digest.{split_loop, segment}

-- Neither quotes nor backslashes: such a text stands between quotes as it is.
abbrev pub is_quotable : Text → Bool
is_quotable = all (λ c. not (eqb c b'"') && not (eqb c b'\\'))

-- A name and its value in quotes.
abbrev pub Pair : Type 0
Pair = Text × Text

-- The pair, in front of `s`.
unfoldable pub write_onto : Pair → Text → Text
write_onto (name, value) s = name ++ (b'=' ∷ b'"' ∷ (value ++ b'"' ∷ s))

-- Further pairs, each behind a comma and a blank, in front of `post`.
unfoldable pub write_behind : Text → List Pair → Text
unfolding write_onto
write_behind post [] = post
write_behind post (p ∷ ps) = b',' ∷ (b' ' ∷ write_onto p (write_behind post ps))

-- Names and choices are made of small letters and dashes.
unfoldable pub is_name_char : ℕ → Bool
is_name_char c = (leb b'a' c && leb c b'z') || eqb c b'-'

pub record IsPair (p : Pair) : Type 0 where
  pub name : all is_name_char p.0 ≡ true
  pub named : is_empty p.0 ≡ false
  pub value : is_quotable p.1 ≡ true

-- Letters are no separators.
split_loop-letters :
    (cur name s : Text)
    → all is_name_char name ≡ true
    → split_loop false false cur (name ++ s) ≡ split_loop false false (cur ++ name) s
unfolding split_loop is_name_char
split_loop-letters cur [] s h = ap (λ t. split_loop false false t s) (sym (append-nil cur))
split_loop-letters cur (c ∷ name) s h =
    rw (← append_assoc cur (c ∷ []) name)
      (ground (arith, split_loop-letters (cur ++ c ∷ []) name s))

split_loop-quoted :
    (cur value s : Text)
    → is_quotable value ≡ true
    → split_loop false true cur (value ++ s) ≡ split_loop false true (cur ++ value) s
unfolding split_loop
split_loop-quoted cur [] s h = ap (λ t. split_loop false true t s) (sym (append-nil cur))
split_loop-quoted cur (c ∷ value) s h =
    rw (← append_assoc cur (c ∷ []) value)
      (ground (arith, split_loop-quoted (cur ++ c ∷ []) value s))

segment-letters :
    (prev : Option ℕ) (name s : Text)
    → all is_name_char name ≡ true
    → segment false prev (name ++ b'=' ∷ s) ≡ name ++ b'=' ∷ segment false (some b'=') s
unfolding segment is_name_char
segment-letters none [] s h = refl
segment-letters (some c) [] s h = refl
segment-letters none (c ∷ name) s h = ground (arith, segment-letters (some c) name s)
segment-letters (some d) (c ∷ name) s h = ground (arith, segment-letters (some c) name s)

segment-quoted :
    (prev : ℕ) (value s : Text)
    → eqb prev b'\\' ≡ false
    → is_quotable value ≡ true
    → segment true (some prev) (value ++ b'"' ∷ s) ≡ value ++ b'"' ∷ segment false (some b'"') s
unfolding segment
segment-quoted prev [] s h k = ground arith
segment-quoted prev (c ∷ value) s h k = ground (arith, segment-quoted c value s)

pub segment-write_onto :
    (prev : Option ℕ) (p : Pair) (s : Text)
    → IsPair p
    → segment false prev (write_onto p s) ≡ write_onto p (segment false (some b'"') s)
unfolding write_onto
segment-write_onto prev (name, value) s h =
    segment-letters prev name (b'"' ∷ (value ++ b'"' ∷ s)) h.name
    ∙ ap (λ t. name ++ b'=' ∷ t)
        (unfold segment in ap (λ t. b'"' ∷ t) (segment-quoted b'"' value s refl h.value))

end_assoc :
    (cur name value : Text)
    → ((((cur ++ name) ++ b'=' ∷ []) ++ b'"' ∷ []) ++ value) ++ b'"' ∷ []
      ≡ cur ++ (name ++ (b'=' ∷ b'"' ∷ (value ++ b'"' ∷ [])))
end_assoc cur name value = simp append_assoc

pub split_loop-write_onto :
    (cur : Text) (p : Pair) (s : Text)
    → IsPair p
    → split_loop false false cur (write_onto p s)
      ≡ split_loop false false (cur ++ write_onto p []) s
unfolding write_onto split_loop
split_loop-write_onto cur (name, value) s h =
    split_loop-letters cur name (b'=' ∷ b'"' ∷ (value ++ b'"' ∷ s)) h.name
    ∙ split_loop-quoted (((cur ++ name) ++ b'=' ∷ []) ++ b'"' ∷ []) value (b'"' ∷ s) h.value
    ∙ ap (λ t. split_loop false false t s) (end_assoc cur name value)
