-- ===== src/Sign/Digest/RoundTrip.antt =====
-- A challenge that a server writes is read back.
use rust_fox.Prelude.{
  ℕ, suc, ◌+◌, ◌≡◌, refl, ap, ◌∙◌, Bool, true, false, [], ◌∷◌, ◌++◌, map, Option, none, some, All,
  all, length, arith,
}
use rust_fox.Prelude.Search.{split_once-append}
use rust_fox.Prelude.Text.{Text, codes, is_empty, split_once, ascii_lower}
use rust_fox.Sign.Digest.{
  DigestChallenge, no_params, read_parts, required, skip, segment, split_challenge_params,
  read_scheme, parse_www_authenticate,
}
use rust_fox.Sign.Digest.Scanned.{is_quotable, is_name_char, write_onto, write_behind, IsPair}
use rust_fox.Sign.Digest.Parts.{IsPost, split-segment}
use rust_fox.Sign.Digest.Fields.{
  read_parts-write, opaque_pair, userhash_text, pairs_of, IsChallenge, quotable-join, read-fields,
}

-- A header: what stands before, the challenge, and what follows it.
unfoldable pub write_challenge : (pre : Text) → DigestChallenge → (post : Text) → Text
unfolding write_onto write_behind pairs_of
write_challenge pre c post =
    pre ++ (codes "Digest " ++ write_onto (codes "realm", c.realm) (write_behind post (pairs_of c)))

named-IsPair :
    (name value : Text)
    → all is_name_char name ≡ true
    → is_empty name ≡ false
    → is_quotable value ≡ true
    → IsPair (name, value)
named-IsPair name value h k v = record { name = h; named = k; value = v }

userhash-quotable : (u : Bool) → is_quotable (userhash_text u) ≡ true
userhash-quotable true = refl
userhash-quotable false = refl

opaque-IsPair :
    (o : Option Text)
    → ((t : Text) → o ≡ some t → is_quotable t ≡ true)
    → All IsPair (opaque_pair o)
unfolding is_name_char
opaque-IsPair none h = tt
opaque-IsPair (some o) h = (named-IsPair (codes "opaque") o refl refl (h o refl), tt)

pairs_of-IsPair : (c : DigestChallenge) → IsChallenge c → All IsPair (pairs_of c)
unfolding pairs_of is_name_char
pairs_of-IsPair c h = (
  named-IsPair (codes "nonce") _ refl refl h.nonce,
  (
    named-IsPair (codes "qop") _ refl refl (quotable-join c.qop h.qop),
    (
      named-IsPair (codes "algorithm") _ refl refl h.algorithm,
      (
        named-IsPair (codes "userhash") _ refl refl (userhash-quotable c.userhash),
        opaque-IsPair c.opaque h.opaque,
      ),
    ),
  ),
)

realm-IsPair : (c : DigestChallenge) → IsChallenge c → IsPair (codes "realm", c.realm)
unfolding is_name_char
realm-IsPair c h = named-IsPair (codes "realm") c.realm refl refl h.realm

suc_plus : (m n : ℕ) → suc m + n ≡ suc (m + n)
suc_plus m n = omega arith

skip-append : (n : ℕ) (s t : Text) → skip (length (map ascii_lower s) + n) (s ++ t) ≡ skip n t
unfolding skip
skip-append n [] t = ap (λ k. skip k t) (omega arith)
skip-append n (c ∷ s) t =
    ap (λ k. skip k (c ∷ (s ++ t))) (suc_plus (length (map ascii_lower s)) n) ∙ skip-append n s t

parse-at :
    (header front further : Text)
    → split_once (codes "digest") (map ascii_lower header) ≡ some (front, further)
    → parse_www_authenticate header ≡ read_scheme (skip (length front + 6) header)
unfolding parse_www_authenticate
parse-at header front further e = ground arith

word-longer :
    (pre x : Text)
    → map ascii_lower (pre ++ (codes "Digest " ++ x))
      ≡ map ascii_lower (pre ++ codes "Digest") ++ (b' ' ∷ map ascii_lower x)
word-longer [] x = refl
word-longer (c ∷ pre) x = ap (λ t. ascii_lower c ∷ t) (word-longer pre x)

-- The scheme is found behind `pre`.
parse-found :
    (pre x : Text)
    → split_once (codes "digest") (map ascii_lower (pre ++ codes "Digest"))
      ≡ some (map ascii_lower pre, [])
    → parse_www_authenticate (pre ++ (codes "Digest " ++ x))
      ≡ required (read_parts no_params (split_challenge_params (segment false none x)))
unfolding read_scheme skip
parse-found pre x h =
    parse-at (pre ++ (codes "Digest " ++ x)) (map ascii_lower pre) (b' ' ∷ map ascii_lower x) (
      ap (split_once (codes "digest")) (word-longer pre x)
      ∙ split_once-append (codes "digest") (map ascii_lower (pre ++ codes "Digest"))
          (b' ' ∷ map ascii_lower x) (map ascii_lower pre) [] h)
    ∙ ap read_scheme (skip-append 6 pre (codes "Digest " ++ x))

-- Parsing a WWW-Authenticate header gives the challenge that it was written for: in front of `Digest`
-- may stand anything that does not hold the word in any case, such as other schemes, and another scheme
-- may follow; the realm, the nonce, the opaque value and the algorithm may be any texts without quotes
-- and backslashes, commas, blanks and equals signs included, and the choices of qop are words in lower
-- case.
pub parse_www_authenticate-write_challenge :
    (pre post : Text) (c : DigestChallenge)
    → split_once (codes "digest") (map ascii_lower (pre ++ codes "Digest"))
      ≡ some (map ascii_lower pre, [])
    → IsPost post
    → IsChallenge c
    → parse_www_authenticate (write_challenge pre c post) ≡ some c
unfolding write_challenge
parse_www_authenticate-write_challenge pre post c h k hc =
    parse-found pre (write_onto (codes "realm", c.realm) (write_behind post (pairs_of c))) h
    ∙ ap (λ ts. required (read_parts no_params ts))
        (split-segment post (codes "realm", c.realm) (pairs_of c) k (realm-IsPair c hc)
          (pairs_of-IsPair c hc))
    ∙ ap required (
        read_parts-write no_params ((codes "realm", c.realm) ∷ pairs_of c)
          (realm-IsPair c hc, pairs_of-IsPair c hc))
    ∙ ap (λ p. required (some p))
        (read-fields c.realm c.nonce c.algorithm c.qop c.userhash hc.realm hc.nonce hc.algorithm
          hc.qop c.opaque hc.opaque)
