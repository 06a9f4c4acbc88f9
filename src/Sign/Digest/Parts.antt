-- ===== src/Sign/Digest/Parts.antt =====
-- A list of quoted parameters is cut off before the next scheme, split at its commas, and unquoted.
use mathlib.Core.List.{reverse-reverse, reverse-append}
use rust_fox.Prelude.{
  ℕ, ◌≡◌, refl, ap, ◌∙◌, true, false, List, [], ◌∷◌, ◌++◌, map, append_assoc, none, some, inl, inr,
  ◌⊎◌, All, all, eqb, Option-cases, arith,
}
use rust_fox.Prelude.Text.{
  Text, codes, is_empty, is_whitespace, trim, trim_start_matches, trim_end_matches, strip_prefix,
  split_once,
}
use rust_fox.Sign.Digest.{
  split_loop, split_challenge_params, is_token_char, extend_token, first_token, names_scheme,
  begins_scheme, segment,
}
use rust_fox.Sign.Digest.Scanned.{
  Pair, write_onto, write_behind, is_name_char, IsPair, segment-write_onto, split_loop-write_onto,
}

-- What follows the parameters: nothing, or another scheme.
pub data IsPost : Text → Type 0 where
  no_more : IsPost []
  scheme :
      (c : ℕ) (token more : Text)
      → all is_token_char (c ∷ token) ≡ true
      → IsPost (b',' ∷ b' ' ∷ c ∷ (token ++ b' ' ∷ more))

-- A token that holds `=` is no scheme.
first_token-name :
    (name s : Text)
    → all is_name_char name ≡ true
    → (first_token (name ++ b'=' ∷ s) ≡ none)
      ⊎ ((t : Text) × (first_token (name ++ b'=' ∷ s) ≡ some (name ++ b'=' ∷ t)))
unfolding first_token is_name_char
first_token-name [] s h = elim (Option-cases (first_token s)) [
  | inl e ↦ inl (ap (extend_token b'=') e)
  | inr (t, e) ↦ inr (t, ap (extend_token b'=') e)
]
first_token-name (c ∷ name) s h = elim (first_token-name name s (ground arith)) [
  | inl e ↦ inl (ground arith)
  | inr (t, e) ↦ inr (t, ground arith)
]

all-equals : (name t : Text) → all is_token_char (name ++ b'=' ∷ t) ≡ false
unfolding is_token_char
all-equals [] t = refl
all-equals (c ∷ name) t = ground (arith, all-equals name t)

-- A blank is dropped in front of a character that is none.
trim_start-blank :
    (c : ℕ) (s : Text)
    → is_whitespace c ≡ false
    → trim_start_matches is_whitespace (b' ' ∷ c ∷ s) ≡ c ∷ s
unfolding trim_start_matches is_whitespace
trim_start-blank c s h = rw h refl

letter-solid : (c : ℕ) → is_name_char c ≡ true → is_whitespace c ≡ false
unfolding is_name_char is_whitespace
letter-solid c h = ground arith

token-solid : (c : ℕ) → is_token_char c ≡ true → is_whitespace c ≡ false
unfolding is_token_char is_whitespace
token-solid c h = ground arith

names_scheme-name :
    (name s : Text)
    → all is_name_char name ≡ true
    → names_scheme (first_token (name ++ b'=' ∷ s)) ≡ false
unfolding names_scheme
names_scheme-name name s h = elim (first_token-name name s h) [
  | inl e ↦ rw e refl
  | inr (t, e) ↦ ground (arith, all-equals name t)
]

begins_scheme-pair :
    (p : Pair) (s : Text) → IsPair p → begins_scheme (b' ' ∷ write_onto p s) ≡ false
unfolding begins_scheme write_onto
begins_scheme-pair ([], value) s h = ground (arith, h.named)
begins_scheme-pair (c ∷ name, value) s h =
    ap (λ t. names_scheme (first_token t))
      (trim_start-blank c (name ++ (b'=' ∷ b'"' ∷ (value ++ b'"' ∷ s)))
        (letter-solid c (ground (arith, h.name))))
    ∙ names_scheme-name (c ∷ name) (b'"' ∷ (value ++ b'"' ∷ s)) h.name

first_token-token :
    (token more : Text)
    → all is_token_char token ≡ true
    → first_token (token ++ b' ' ∷ more) ≡ some token
unfolding first_token is_token_char
first_token-token [] more h = refl
first_token-token (c ∷ token) more h = ground (arith, first_token-token token more)

token-equals : (c : ℕ) → is_token_char c ≡ true → eqb b'=' c ≡ false
unfolding is_token_char
token-equals c h = ground arith

split_once-token : (t : Text) → all is_token_char t ≡ true → split_once (codes "=") t ≡ none
unfolding split_once strip_prefix
split_once-token [] h = refl
split_once-token (c ∷ t) h = ground (arith, token-equals c, split_once-token t)

names_scheme-token :
    (c : ℕ) (token : Text)
    → all is_token_char (c ∷ token) ≡ true
    → names_scheme (some (c ∷ token)) ≡ true
unfolding names_scheme
names_scheme-token c token h = ground (arith, split_once-token (c ∷ token) h)

begins_scheme-token :
    (c : ℕ) (token more : Text)
    → all is_token_char (c ∷ token) ≡ true
    → begins_scheme (b' ' ∷ c ∷ (token ++ b' ' ∷ more)) ≡ true
unfolding begins_scheme
begins_scheme-token c token more h =
    ap (λ t. names_scheme (first_token t))
      (trim_start-blank c (token ++ b' ' ∷ more) (token-solid c (ground arith)))
    ∙ ap names_scheme (first_token-token (c ∷ token) more h)
    ∙ names_scheme-token c token h

-- The parameters end where another scheme begins.
segment-post : (post : Text) → IsPost post → segment false (some b'"') post ≡ []
unfolding segment
segment-post _ no_more = refl
segment-post _ (scheme c token more h) = rw (begins_scheme-token c token more h) refl

-- A comma in front of another pair ends nothing.
segment-comma :
    (p : Pair) (s : Text)
    → IsPair p
    → segment false (some b'"') (b',' ∷ (b' ' ∷ write_onto p s))
      ≡ b',' ∷ (b' ' ∷ write_onto p (segment false (some b'"') s))
unfolding segment
segment-comma p s h =
    rw (begins_scheme-pair p s h)
      (ap (λ t. b',' ∷ (b' ' ∷ t)) (segment-write_onto (some b' ') p s h))

segment-write_behind :
    (post : Text) (ps : List Pair)
    → IsPost post
    → All IsPair ps
    → segment false (some b'"') (write_behind post ps) ≡ write_behind [] ps
unfolding write_behind
segment-write_behind post [] k h = segment-post post k
segment-write_behind post (p ∷ ps) k (h, hs) =
    segment-comma p (write_behind post ps) h
    ∙ ap (λ t. b',' ∷ (b' ' ∷ write_onto p t)) (segment-write_behind post ps k hs)

trim_end-solid :
    (t : Text) (c : ℕ)
    → is_whitespace c ≡ false
    → trim_end_matches is_whitespace (t ++ c ∷ []) ≡ t ++ c ∷ []
unfolding trim_end_matches trim_start_matches
trim_end-solid t c h = rw (reverse-append, h) (rw (← reverse-append t (c ∷ [])) (reverse-reverse _))

trim_start-solid :
    (c : ℕ) (s : Text) → is_whitespace c ≡ false → trim_start_matches is_whitespace (c ∷ s) ≡ c ∷ s
unfolding trim_start_matches
trim_start-solid c s h = rw h refl

-- A text has no blanks at its ends, or one at its beginning.
pub trim-solid :
    (c d : ℕ) (s : Text)
    → is_whitespace c ≡ false
    → is_whitespace d ≡ false
    → (trim (c ∷ (s ++ d ∷ [])) ≡ c ∷ (s ++ d ∷ []))
      × (trim (b' ' ∷ (c ∷ (s ++ d ∷ []))) ≡ c ∷ (s ++ d ∷ []))
unfolding trim
trim-solid c d s h k = (
  ap (trim_end_matches is_whitespace) (trim_start-solid c (s ++ d ∷ []) h)
      ∙ trim_end-solid (c ∷ s) d k,
  ap (trim_end_matches is_whitespace) (trim_start-blank c (s ++ d ∷ []) h)
      ∙ trim_end-solid (c ∷ s) d k,
)

pub trim-pair :
    (p : Pair)
    → IsPair p
    → (trim (write_onto p []) ≡ write_onto p []) × (trim (b' ' ∷ write_onto p []) ≡ write_onto p [])
unfolding write_onto
trim-pair ([], value) h = ground (arith, h.named)
trim-pair (c ∷ name, value) h = rw (← append_assoc name (b'=' ∷ b'"' ∷ value) (b'"' ∷ [])) (
    trim-solid c b'"' (name ++ (b'=' ∷ b'"' ∷ value)) (letter-solid c (ground (arith, h.name)))
      (unfold is_whitespace in refl))

pub write_onto-present : (p : Pair) (s : Text) → IsPair p → is_empty (write_onto p s) ≡ false
unfolding write_onto
write_onto-present ([], value) s h = ground (arith, h.named)
write_onto-present (c ∷ name, value) s h = refl

-- The parts behind the first.
split_loop-write_behind :
    (cur : Text) (ps : List Pair)
    → is_empty (trim cur) ≡ false
    → All IsPair ps
    → split_loop false false cur (write_behind [] ps) ≡ trim cur ∷ map (λ p. write_onto p []) ps
unfolding split_loop write_behind
split_loop-write_behind cur [] e h = rw e refl
split_loop-write_behind cur (p ∷ ps) e (h, hs) =
    ap (λ ts. trim cur ∷ ts)
      (split_loop-write_onto (b' ' ∷ []) p (write_behind [] ps) h
        ∙ split_loop-write_behind (b' ' ∷ write_onto p []) ps
            (ap is_empty (trim-pair p h).1 ∙ write_onto-present p [] h) hs
        ∙ ap (λ t. t ∷ map (λ q. write_onto q []) ps) (trim-pair p h).1)

-- The parameters of a challenge, in front of nothing or of another scheme, are split into the pairs.
pub split-segment :
    (post : Text) (p : Pair) (ps : List Pair)
    → IsPost post
    → IsPair p
    → All IsPair ps
    → split_challenge_params (segment false none (write_onto p (write_behind post ps)))
      ≡ map (λ q. write_onto q []) (p ∷ ps)
unfolding split_challenge_params
split-segment post p ps k h hs =
    ap (split_loop false false []) (
      segment-write_onto none p (write_behind post ps) h
      ∙ ap (write_onto p) (segment-write_behind post ps k hs))
    ∙ split_loop-write_onto [] p (write_behind [] ps) h
    ∙ split_loop-write_behind (write_onto p []) ps
        (ap is_empty (trim-pair p h).0 ∙ write_onto-present p [] h) hs
    ∙ ap (λ t. t ∷ map (λ q. write_onto q []) ps) (trim-pair p h).0
