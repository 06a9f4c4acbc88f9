-- ===== src/Sign/Digest/Fields.antt =====
-- The parameters of a challenge are read back into its fields.
use rust_fox.Prelude.{
  ℕ, ◌≡◌, refl, ap, ◌∙◌, Bool, true, false, not, List, [], ◌∷◌, ◌++◌, map, Option, none, some, All,
  all, keep, arith,
}
use rust_fox.Prelude.Text.Trimmed.{trim-solid_text}
use rust_fox.Prelude.Text.{
  eq_ignore_ascii_case, Text, is_whitespace, codes, is_empty, trim, split, join, split_once,
  ascii_lower,
}
use rust_fox.Sign.Digest.{
  DigestChallenge, Params, no_params, qop_choices, set_param, read_parts, unquote,
}
use rust_fox.Sign.Digest.Scanned.{is_quotable, is_name_char, Pair, write_onto, IsPair}
use rust_fox.Sign.Digest.Unquoted.{unquote-quoted, split_once-pair}

-- The values as they stand between the quotes.
unfoldable pub read_pairs : Params → List Pair → Params
unfolding set_param
read_pairs params [] = params
read_pairs params (p ∷ ps) = read_pairs (set_param p.0 (b'"' ∷ (p.1 ++ b'"' ∷ [])) params) ps

-- Names and choices are trimmed and in lower case.
name_char-solid : (c : ℕ) → is_name_char c ≡ true → not (is_whitespace c) ≡ true
unfolding is_name_char is_whitespace
name_char-solid c h = ground arith

name_char-lower : (c : ℕ) → is_name_char c ≡ true → ascii_lower c ≡ c
unfolding is_name_char
name_char-lower c h = ground arith

lower-word : (name : Text) → all is_name_char name ≡ true → map ascii_lower name ≡ name
lower-word [] h = refl
lower-word (c ∷ name) h = ground (arith, name_char-lower c, lower-word name)

solid-word :
    (name : Text) → all is_name_char name ≡ true → all (λ c. not (is_whitespace c)) name ≡ true
solid-word [] h = refl
solid-word (c ∷ name) h = ground (arith, name_char-solid c, solid-word name)

normal-word : (name : Text) → all is_name_char name ≡ true → map ascii_lower (trim name) ≡ name
normal-word name h =
    ap (map ascii_lower) (trim-solid_text name (solid-word name h)) ∙ lower-word name h

read_parts-cons :
    (params : Params) (part k v : Text) (parts : List Text)
    → split_once (codes "=") part ≡ some (k, v)
    → read_parts params (part ∷ parts)
      ≡ read_parts (set_param (map ascii_lower (trim k)) v params) parts
unfolding read_parts
read_parts-cons params part k v parts e = ground arith

pub read_parts-write :
    (params : Params) (ps : List Pair)
    → All IsPair ps
    → read_parts params (map (λ q. write_onto q []) ps) ≡ some (read_pairs params ps)
unfolding read_parts read_pairs
read_parts-write params [] h = refl
read_parts-write params (p ∷ ps) (h, hs) =
    read_parts-cons params (write_onto p []) p.0 _ (map (λ q. write_onto q []) ps)
      (split_once-pair p h)
    ∙ ap
        (λ k.
          read_parts (set_param k (b'"' ∷ (p.1 ++ b'"' ∷ [])) params)
            (map (λ q. write_onto q []) ps))
        (normal-word p.0 h.name)
    ∙ read_parts-write (set_param p.0 (b'"' ∷ (p.1 ++ b'"' ∷ [])) params) ps hs

abbrev pub opaque_pair : Option Text → List Pair
opaque_pair none = []
opaque_pair (some o) = (codes "opaque", o) ∷ []

abbrev pub userhash_text : Bool → Text
userhash_text true = codes "true"
userhash_text false = codes "false"

-- The parameters of a challenge.
unfoldable pub pairs_of : DigestChallenge → List Pair
unfolding join
pairs_of c =
    (codes "nonce", c.nonce)
    ∷ (codes "qop", join (codes ",") c.qop)
    ∷ (codes "algorithm", c.algorithm)
    ∷ (codes "userhash", userhash_text c.userhash)
    ∷ opaque_pair c.opaque

-- A choice of a `qop`.
pub record IsChoice (q : Text) : Type 0 where
  pub word : all is_name_char q ≡ true
  pub named : is_empty q ≡ false

split-comma :
    (q rest : Text)
    → all is_name_char q ≡ true
    → split b',' (q ++ b',' ∷ rest) ≡ q ∷ split b',' rest
unfolding split is_name_char
split-comma [] rest h = refl
split-comma (c ∷ q) rest h = ground (arith, split-comma q rest)

split-word : (q : Text) → all is_name_char q ≡ true → split b',' q ≡ q ∷ []
unfolding split is_name_char
split-word [] h = refl
split-word (c ∷ q) h = ground (arith, split-word q)

abbrev chosen : List Text → List Text
unfolding trim
chosen parts = keep (λ s. not (is_empty s)) (map (λ s. map ascii_lower (trim s)) parts)

chosen-cons : (q : Text) (parts : List Text) → IsChoice q → chosen (q ∷ parts) ≡ q ∷ chosen parts
unfolding chosen
chosen-cons q parts h = rw (normal-word q h.word, h.named) refl

qop_choices-join : (qs : List Text) → All IsChoice qs → qop_choices (join (codes ",") qs) ≡ qs
unfolding join qop_choices chosen
qop_choices-join [] h = refl
qop_choices-join (q ∷ []) (h, _) = ap chosen (split-word q h.word) ∙ chosen-cons q [] h
qop_choices-join (q ∷ r ∷ qs) (h, hs) =
    ap chosen (split-comma q (join (codes ",") (r ∷ qs)) h.word)
    ∙ chosen-cons q (split b',' (join (codes ",") (r ∷ qs))) h
    ∙ ap (λ ts. q ∷ ts) (qop_choices-join (r ∷ qs) hs)

-- What a header can carry: values without quotes and backslashes, and choices that are words.
pub record IsChallenge (c : DigestChallenge) : Type 0 where
  pub realm : is_quotable c.realm ≡ true
  pub nonce : is_quotable c.nonce ≡ true
  pub algorithm : is_quotable c.algorithm ≡ true
  pub opaque : (o : Text) → c.opaque ≡ some o → is_quotable o ≡ true
  pub qop : All IsChoice c.qop

quotable-word : (q : Text) → all is_name_char q ≡ true → is_quotable q ≡ true
unfolding is_name_char
quotable-word [] h = refl
quotable-word (c ∷ q) h = ground (arith, quotable-word q)

quotable-append :
    (s t : Text) → is_quotable s ≡ true → is_quotable t ≡ true → is_quotable (s ++ t) ≡ true
quotable-append [] t h k = k
quotable-append (c ∷ s) t h k = ground (arith, quotable-append s t)

pub quotable-join : (qs : List Text) → All IsChoice qs → is_quotable (join (codes ",") qs) ≡ true
unfolding join
quotable-join [] h = refl
quotable-join (q ∷ []) (h, _) = quotable-word q h.word
quotable-join (q ∷ r ∷ qs) (h, hs) =
    quotable-append q _ (quotable-word q h.word) (quotable-join (r ∷ qs) hs)

userhash-read :
    (u : Bool)
    → eq_ignore_ascii_case (unquote (b'"' ∷ (userhash_text u ++ b'"' ∷ []))) (codes "true") ≡ u
unfolding eq_ignore_ascii_case
userhash-read true =
    ap (λ v. eq_ignore_ascii_case v (codes "true")) (unquote-quoted (codes "true") refl)
userhash-read false =
    ap (λ v. eq_ignore_ascii_case v (codes "true")) (unquote-quoted (codes "false") refl)

module _ (r n a : Text) (q : List Text) (u : Bool) (hr : is_quotable r ≡ true)
    (hn : is_quotable n ≡ true) (ha : is_quotable a ≡ true) (hq : All IsChoice q) where
  -- The parameters are read back into the fields.
  pub read-fields :
      (o : Option Text)
      → ((t : Text) → o ≡ some t → is_quotable t ≡ true)
      → read_pairs no_params (
          (codes "realm", r)
          ∷ (codes "nonce", n)
          ∷ (codes "qop", join (codes ",") q)
          ∷ (codes "algorithm", a)
          ∷ (codes "userhash", userhash_text u)
          ∷ opaque_pair o)
        ≡ record {
          realm = some r;
          nonce = some n;
          opaque = o;
          qop = q;
          algorithm = a;
          userhash = u;
        }
  unfolding read_pairs set_param
  read-fields none ho =
      rw
        (
          unquote-quoted r hr,
          unquote-quoted n hn,
          unquote-quoted (join (codes ",") q) (quotable-join q hq),
          unquote-quoted a ha,
          userhash-read u,
          qop_choices-join q hq,
        )
        refl
  read-fields (some o) ho =
      rw
        (
          unquote-quoted r hr,
          unquote-quoted n hn,
          unquote-quoted (join (codes ",") q) (quotable-join q hq),
          unquote-quoted a ha,
          userhash-read u,
          qop_choices-join q hq,
          unquote-quoted o (ho o refl),
        )
        refl
