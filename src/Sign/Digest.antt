-- ===== src/Sign/Digest.antt =====
-- fox-sign/src/lib.rs: the challenge of a server that asks for Digest authentication.
pub mod RoundTrip
pub mod Scanned
pub mod Parts
pub mod Unquoted
pub mod Fields
pub mod Answer
mod Tests
use rust_fox.Prelude.{
  ℕ, zero, suc, ◌+◌, Bool, true, false, ◌&&◌, ◌||◌, not, List, [], ◌∷◌, ◌++◌, map, reverse, Option,
  none, some, all, keep, leb, eqb, length, if◌then◌else◌, ◌==◌, list_eq, nat_eq,
}
use rust_fox.Prelude.Text.{
  Text, codes, strip_prefix, strip_suffix, is_empty, utf8_len, is_whitespace, in_range, trim,
  trim_start_matches, starts_with, ends_with, split_once, split, ascii_lower, tail_of,
  eq_ignore_ascii_case,
}

pub record DigestChallenge : Type 0 where
  pub realm : Text
  pub nonce : Text
  pub opaque : Option Text
  pub qop : List Text
  pub algorithm : Text
  pub userhash : Bool

-- The characters of a quoted part that the splitting reads: whether the next is escaped.
abbrev pub escapes : (escaped in_quotes : Bool) → ℕ → Bool
escapes escaped in_quotes c = not escaped && (eqb c b'\\' && in_quotes)

abbrev pub toggles : (escaped : Bool) → ℕ → Bool
toggles escaped c = not escaped && eqb c b'"'

abbrev pub separates : (escaped in_quotes : Bool) → ℕ → Bool
separates escaped in_quotes c = not escaped && (eqb c b',' && not in_quotes)

-- `cur` is the part so far.
unfoldable pub split_loop : (escaped in_quotes : Bool) → (cur : Text) → Text → List Text
unfolding trim
split_loop escaped in_quotes cur [] = if is_empty (trim cur) then [] else trim cur ∷ []
split_loop escaped in_quotes cur (c ∷ s) =
    let ends = separates escaped in_quotes c in
    let rest =
      split_loop (escapes escaped in_quotes c)
        (if toggles escaped c then not in_quotes else in_quotes)
        (if ends then [] else cur ++ c ∷ []) s in
    if ends then trim cur ∷ rest else rest

unfoldable pub split_challenge_params : Text → List Text
unfolding split_loop
split_challenge_params = split_loop false false []

-- `s.replace("\\\"", "\"")`
unfoldable pub unescape : Text → Text
unescape [] = []
unescape (c ∷ []) = c ∷ []
unescape (c ∷ d ∷ s) =
    let behind = unescape s in
    let from_d = unescape (d ∷ s) in if eqb c b'\\' && eqb d b'"' then b'"' ∷ behind else c ∷ from_d

-- `t[1..t.len() - 1]` between two ASCII characters.
unfoldable pub inner : Text → Text
inner t = reverse (tail_of (reverse (tail_of t)))

unfoldable pub strip_quotes : Text → Text
unfolding inner unescape strip_prefix strip_suffix
strip_quotes t =
    if leb 2 (utf8_len t) && (starts_with t (codes "\"") && ends_with t (codes "\""))
    then unescape (inner t)
    else t

unfoldable pub unquote : Text → Text
unfolding trim strip_quotes
unquote s = strip_quotes (trim s)

-- The bytes of a token; `=` is not among them.
unfoldable pub is_token_char : ℕ → Bool
is_token_char b =
    in_range b'a' b'z' b
    || in_range b'A' b'Z' b
    || in_range b'0' b'9' b
    || eqb b b'!'
    || in_range b'#' b'\'' b
    || eqb b b'*'
    || eqb b b'+'
    || eqb b b'-'
    || eqb b b'.'
    || eqb b b'^'
    || eqb b b'_'
    || eqb b b'`'
    || eqb b b'|'
    || eqb b b'~'

-- What stands before the first blank or tab.
abbrev pub extend_token : ℕ → Option Text → Option Text
extend_token c none = none
extend_token c (some token) = some (c ∷ token)

unfoldable pub first_token : Text → Option Text
first_token [] = none
first_token (c ∷ s) =
    let further = first_token s in if eqb c b' ' || eqb c 9 then some [] else extend_token c further

-- Whether the token is the name of a scheme.
unfoldable pub names_scheme : Option Text → Bool
unfolding is_token_char split_once
names_scheme none = false
names_scheme (some token) =
    not (is_empty token)
    && (all is_token_char token
        && elim (split_once (codes "=") token) [ none ↦ true | some _ ↦ false ])

-- Behind a comma: whether a token and a blank follow, so that another scheme begins.
unfoldable pub begins_scheme : Text → Bool
unfolding trim_start_matches is_whitespace first_token names_scheme
begins_scheme ahead = names_scheme (first_token (trim_start_matches is_whitespace ahead))

-- A quote counts unless the character before it is a backslash.
abbrev pub quotes : (prev : Option ℕ) → ℕ → Bool
quotes none c = eqb c b'"'
quotes (some p) c = eqb c b'"' && not (eqb p b'\\')

-- `&rest[..end]`: up to the comma that another scheme follows.
unfoldable pub segment : (in_quotes : Bool) → (prev : Option ℕ) → Text → Text
unfolding begins_scheme
segment in_quotes prev [] = []
segment in_quotes prev (c ∷ s) =
    let quoted = if quotes prev c then not in_quotes else in_quotes in
    let rest = segment quoted (some c) s in
    if eqb c b',' && (not quoted && begins_scheme s) then [] else c ∷ rest

-- The values so far.
pub record Params : Type 0 where
  pub realm : Option Text
  pub nonce : Option Text
  pub opaque : Option Text
  pub qop : List Text
  pub algorithm : Text
  pub userhash : Bool

abbrev pub no_params : Params
no_params = record {
  realm = none;
  nonce = none;
  opaque = none;
  qop = [];
  algorithm = codes "MD5";
  userhash = false;
}

-- The choices of a `qop`.
unfoldable pub qop_choices : Text → List Text
unfolding split trim
qop_choices v = keep (λ s. not (is_empty s)) (map (λ s. map ascii_lower (trim s)) (split b',' v))

unfoldable pub set_param : (name value : Text) → Params → Params
unfolding unquote qop_choices eq_ignore_ascii_case
set_param name value params =
    let v = unquote value in
    if name == codes "realm"
    then record params { realm = some v }
    else if name == codes "nonce"
    then record params { nonce = some v }
    else if name == codes "opaque"
    then record params { opaque = some v }
    else if name == codes "qop"
    then record params { qop = qop_choices v }
    else if name == codes "algorithm"
    then record params { algorithm = v }
    else if name == codes "userhash"
    then record params { userhash = eq_ignore_ascii_case v (codes "true") }
    else params

-- The loop over the parts; a part without `=` ends it, and the whole, with nothing.
unfoldable pub read_parts : Params → List Text → Option Params
unfolding split_once trim set_param
read_parts params [] = some params
read_parts params (part ∷ parts) = elim (split_once (codes "=") part) [
  | none ↦ none
  | some (k, v) ↦ read_parts (set_param (map ascii_lower (trim k)) v params) parts
]

abbrev pub with_realm_and_nonce : Params → Option Text → Option Text → Option DigestChallenge
with_realm_and_nonce params (some realm) (some nonce) = some (record {
  realm = realm;
  nonce = nonce;
  opaque = params.opaque;
  qop = params.qop;
  algorithm = params.algorithm;
  userhash = params.userhash;
})
with_realm_and_nonce params _ _ = none

abbrev pub required : Option Params → Option DigestChallenge
required none = none
required (some params) = with_realm_and_nonce params params.realm params.nonce

-- `&s[n..]`
unfoldable pub skip : ℕ → Text → Text
skip zero s = s
skip (suc n) [] = []
skip (suc n) (c ∷ s) = skip n s

-- Behind the word `digest` there is a blank or a tab.
unfoldable pub read_scheme : Text → Option DigestChallenge
unfolding segment split_challenge_params read_parts
read_scheme [] = none
read_scheme (after ∷ rest) =
    if eqb after b' ' || eqb after 9
    then required (read_parts no_params (split_challenge_params (segment false none rest)))
    else none

unfoldable pub parse_www_authenticate : Text → Option DigestChallenge
unfolding split_once skip read_scheme
parse_www_authenticate header = elim (split_once (codes "digest") (map ascii_lower header)) [
  | none ↦ none
  | some (front, _) ↦ read_scheme (skip (length front + 6) header)
]
