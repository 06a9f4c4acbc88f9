-- ===== src/Sign/Digest/Answer/Readable.antt =====
-- A server reads the answer to its challenge back.
use rust_fox.Prelude.{
  ◌≡◌, refl, ap, ◌∙◌, Bool, true, false, not, List, [], ◌∷◌, ◌++◌, map, Option, none, some, All,
  all, eqb, inl, inr, Bool-cases, arith, ◌==◌, list_eq, nat_eq,
}
use rust_fox.Prelude.Text.{Text, codes, join, is_empty, trim}
use rust_fox.Prelude.Utf8.{as_bytes}
use rust_fox.Core.External.{Hashes, is_hex_digit}
use rust_fox.Sign.Digest.{DigestChallenge, split_loop, split_challenge_params}
use rust_fox.Sign.Digest.Scanned.{
  is_quotable, is_name_char, Pair, write_onto, write_behind, IsPair, split_loop-write_onto,
}
use rust_fox.Sign.Digest.Parts.{trim-pair, write_onto-present}
use rust_fox.Sign.Digest.Answer.{
  DigestParams, offers_auth, hashed, user_field, response_text, response_of, suffix,
  algorithm_suffix, auth_suffix, opaque_suffix, final_text,
}

-- Nothing, or a comma first.
abbrev pub is_tail : Text → Bool
is_tail [] = true
is_tail (c ∷ s) = eqb c b','

split-front :
    (cur tail : Text) (ps : List Pair)
    → is_tail tail ≡ true
    → is_empty (trim cur) ≡ false
    → All IsPair ps
    → (more : List Text) × (split_loop false false cur (write_behind tail ps)
        ≡ trim cur ∷ (map (λ q. write_onto q []) ps ++ more))
unfolding split_loop write_behind
split-front cur [] [] t e h = ([], rw e refl)
split-front cur (c ∷ tail) [] t e h = (split_loop false false [] tail, ground arith)
split-front cur tail (p ∷ ps) t e (h, hs) =
    let (more, f) =
      split-front (b' ' ∷ write_onto p []) tail ps t
        (ap is_empty (trim-pair p h).1 ∙ write_onto-present p [] h) hs in
    (
      more,
      ap (λ ts. trim cur ∷ ts)
          (split_loop-write_onto (b' ' ∷ []) p (write_behind tail ps) h
            ∙ f
            ∙ ap (λ s. s ∷ (map (λ q. write_onto q []) ps ++ more)) (trim-pair p h).1),
    )

hex-quotable : (s : Text) → all is_hex_digit s ≡ true → is_quotable s ≡ true
hex-quotable [] h = refl
hex-quotable (c ∷ s) h = ground (arith, hex-quotable s)

-- What a header can carry.
pub record AreQuotable (p : DigestParams) : Type 0 where
  pub username : is_quotable p.username ≡ true
  pub realm : is_quotable p.challenge.realm ≡ true
  pub nonce : is_quotable p.challenge.nonce ≡ true
  pub uri : is_quotable p.uri ≡ true

-- The opaque value is there, or `auth` is not offered.
abbrev pub keeps_text : DigestChallenge → Bool
keeps_text c = elim c.opaque [ some _ ↦ true | none ↦ not (offers_auth c) ]

tail-append : (s t : Text) → is_tail s ≡ true → is_tail t ≡ true → is_tail (s ++ t) ≡ true
tail-append [] t h k = k
tail-append (c ∷ s) t h k = h

algorithm_suffix-tail :
    (algo : Text) (c : DigestChallenge) → is_tail (algorithm_suffix algo c) ≡ true
unfolding algorithm_suffix
algorithm_suffix-tail algo c = elim (Bool-cases (algo == codes "MD5")) [
  | inl e ↦ rw e refl
  | inr e ↦ rw e refl
]

opaque_suffix-tail : (o : Option Text) → is_tail (opaque_suffix o) ≡ true
opaque_suffix-tail none = refl
opaque_suffix-tail (some o) = refl

auth_suffix-tail : (p : DigestParams) → is_tail (auth_suffix p) ≡ true
unfolding auth_suffix
auth_suffix-tail p = elim (Bool-cases (offers_auth p.challenge)) [
  | inl e ↦ rw e refl
  | inr e ↦ rw e (opaque_suffix-tail p.challenge.opaque)
]

pub suffix-tail : (algo : Text) (p : DigestParams) → is_tail (suffix algo p) ≡ true
unfolding suffix
suffix-tail algo p =
    tail-append (algorithm_suffix algo p.challenge) (auth_suffix p)
      (algorithm_suffix-tail algo p.challenge) (auth_suffix-tail p)

pub final_text-kept : (c : DigestChallenge) (t : Text) → keeps_text c ≡ true → final_text c t ≡ t
unfolding final_text
final_text-kept c t h = ground (arith, h)

module _ (hashes : Hashes) where
  pub hashed-quotable : (algo t : Text) → is_quotable (hashed hashes algo t) ≡ true
  unfolding hashed
  hashed-quotable algo t = ground (
    arith,
    hex-quotable (hashes.hex (hashes.sha256 (as_bytes t)))
        (hashes.hex_digits (hashes.sha256 (as_bytes t))),
    hex-quotable (hashes.hex (hashes.md5 (as_bytes t)))
        (hashes.hex_digits (hashes.md5 (as_bytes t))),
  )

  user_field-quotable :
      (algo : Text) (p : DigestParams)
      → AreQuotable p
      → is_quotable (user_field hashes algo p) ≡ true
  unfolding user_field
  user_field-quotable algo p h = ground (
    arith,
    h.username,
    hashed-quotable algo (join (codes ":") (p.username ∷ p.challenge.realm ∷ [])),
  )

  -- The values that a server checks, `response` as it computes it itself.
  unfoldable pub answer_pairs : (algo : Text) → DigestParams → List Pair
  unfolding user_field response_of
  answer_pairs algo p =
      (codes "username", user_field hashes algo p)
      ∷ (codes "realm", p.challenge.realm)
      ∷ (codes "nonce", p.challenge.nonce)
      ∷ (codes "uri", p.uri)
      ∷ (codes "response", response_of hashes algo p)
      ∷ []

  answer_pairs-IsPair :
      (algo : Text) (p : DigestParams) → AreQuotable p → All IsPair (answer_pairs algo p)
  unfolding answer_pairs is_name_char
  answer_pairs-IsPair algo p h = (
    record { name = refl; named = refl; value = user_field-quotable algo p h },
    (
      record { name = refl; named = refl; value = h.realm },
      (
        record { name = refl; named = refl; value = h.nonce },
        (
          record { name = refl; named = refl; value = h.uri },
          (
            record {
              name = refl;
              named = refl;
              value = hashed-quotable algo (response_text hashes algo p);
            },
            tt,
          ),
        ),
      ),
    ),
  )

  unfoldable pub user_pair : (algo : Text) → DigestParams → Pair
  unfolding user_field
  user_pair algo p = (codes "username", user_field hashes algo p)

  unfoldable pub later_pairs : (algo : Text) → DigestParams → List Pair
  unfolding response_of
  later_pairs algo p =
      (codes "realm", p.challenge.realm)
      ∷ (codes "nonce", p.challenge.nonce)
      ∷ (codes "uri", p.uri)
      ∷ (codes "response", response_of hashes algo p)
      ∷ []

  -- The pairs are read in front of any tail.
  pub pairs-read :
      (algo : Text) (p : DigestParams) (tail : Text)
      → AreQuotable p
      → is_tail tail ≡ true
      → (more : List Text) × (split_challenge_params
            (write_onto (user_pair algo p) (write_behind tail (later_pairs algo p)))
          ≡ map (λ q. write_onto q []) (answer_pairs algo p) ++ more)
  unfolding split_challenge_params answer_pairs user_pair later_pairs
  pairs-read algo p tail h t =
      let (first, others) = answer_pairs-IsPair algo p h in
      let (more, e) =
        split-front (write_onto (user_pair algo p) []) tail (later_pairs algo p) t
          (ap is_empty (trim-pair (user_pair algo p) first).0
            ∙ write_onto-present (user_pair algo p) [] first)
          others in
      (
        more,
        split_loop-write_onto [] (user_pair algo p) (write_behind tail (later_pairs algo p)) first
            ∙ e
            ∙ ap (λ t. t ∷ (map (λ q. write_onto q []) (later_pairs algo p) ++ more))
                (trim-pair (user_pair algo p) first).0,
      )
