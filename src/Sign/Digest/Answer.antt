-- ===== src/Sign/Digest/Answer.antt =====
-- fox-sign/src/lib.rs: the answer to a Digest challenge.
pub mod Readable
pub mod Rfc
pub mod Answered
pub mod Replaced
mod Tests
use rust_fox.Prelude.{
  ℕ, zero, suc, ◌+◌, ◌-◌, ◌/◌, ◌%◌, ◌^◌, Bool, true, false, not, ◌&&◌, ◌||◌, List, [], ◌∷◌, ◌++◌,
  Option, none, some, any, leb, length, if◌then◌else◌, ◌==◌, list_eq, nat_eq,
}
use rust_fox.Prelude.Result.{Result, ok, err, ◌>>=◌, ◌>>◌, reject_if}
use rust_fox.Prelude.Text.{Text, codes, join, starts_with, strip_prefix, to_ascii_uppercase}
use rust_fox.Prelude.Utf8.{as_bytes}
use rust_fox.Core.External.{Hashes}
use rust_fox.Sign.{SignError, unsupported_algorithm, unsupported_qop}
use rust_fox.Sign.Digest.{DigestChallenge}

pub record DigestParams : Type 0 where
  pub username : Text
  pub password : Text
  pub method : Text
  pub uri : Text
  pub challenge : DigestChallenge
  pub nc : ℕ
  pub cnonce : Text

unfoldable pub is_sha256 : Text → Bool
unfolding strip_prefix
is_sha256 algo = starts_with algo (codes "SHA-256") || starts_with algo (codes "SHA256")

unfoldable pub is_supported : Text → Bool
unfolding is_sha256
is_supported algo = algo == codes "MD5" || algo == codes "MD5-SESS" || is_sha256 algo

-- `{n:08x}` of a `u32`.
abbrev pub hex_lower_digit : ℕ → ℕ
hex_lower_digit d = if leb d 9 then b'0' + d else 87 + d

unfoldable pub hex_places : (places : ℕ) → ℕ → Text
hex_places zero n = []
hex_places (suc places) n = hex_lower_digit (n / 16 ^ places % 16) ∷ hex_places places n

-- `s.replace(pat, by)`; `skip` characters of a replaced pattern are passed over.
unfoldable pub replace : (pat by : Text) → (skip : ℕ) → Text → Text
unfolding strip_prefix
replace pat by skip [] = []
replace pat by (suc skip) (c ∷ s) = replace pat by skip s
replace pat by zero (c ∷ s) =
    let rest = replace pat by zero s in
    let behind = replace pat by (length pat - 1) s in
    if starts_with (c ∷ s) pat then by ++ behind else c ∷ rest

-- Whether the server offers `auth`.
abbrev pub offers_auth : DigestChallenge → Bool
offers_auth c = any (λ q. q == codes "auth") c.qop

abbrev pub no_choices : DigestChallenge → Bool
no_choices c = elim c.qop [ [] ↦ true | q ∷ qs ↦ false ]

abbrev pub quoted_or_empty : Option Text → Text
quoted_or_empty none = []
quoted_or_empty (some o) = b'"' ∷ (o ++ b'"' ∷ [])

abbrev pub opaque_suffix : Option Text → Text
opaque_suffix none = []
opaque_suffix (some o) = codes ", opaque=\"" ++ (o ++ b'"' ∷ [])

-- What follows the response.
unfoldable pub algorithm_suffix : (algo : Text) → DigestChallenge → Text
algorithm_suffix algo c = if algo == codes "MD5" then [] else codes ", algorithm=" ++ c.algorithm

unfoldable pub auth_suffix : DigestParams → Text
unfolding hex_places
auth_suffix p =
    if offers_auth p.challenge
    then codes ", cnonce=\""
      ++ (p.cnonce
          ++ (codes "\", opaque="
              ++ (quoted_or_empty p.challenge.opaque
                  ++ (codes ", qop=auth, nc=" ++ hex_places 8 p.nc))))
    else opaque_suffix p.challenge.opaque

unfoldable pub suffix : (algo : Text) → DigestParams → Text
unfolding algorithm_suffix auth_suffix
suffix algo p = algorithm_suffix algo p.challenge ++ auth_suffix p

-- Without an opaque value its name is taken out again.
unfoldable pub final_text : DigestChallenge → Text → Text
unfolding replace
final_text c out = elim c.opaque [
  | some _ ↦ out
  | none ↦ if offers_auth c then replace (codes ", opaque=,") (codes ",") 0 out else out
]

module _ (hashes : Hashes) where
  -- The closure `h`.
  unfoldable pub hashed : (algo data_ : Text) → Text
  unfolding is_sha256 as_bytes
  hashed algo data_ =
      if is_sha256 algo
      then hashes.hex (hashes.sha256 (as_bytes data_))
      else hashes.hex (hashes.md5 (as_bytes data_))

  unfoldable pub user_field : (algo : Text) → DigestParams → Text
  unfolding hashed join
  user_field algo p =
      if p.challenge.userhash
      then hashed algo (join (codes ":") (p.username ∷ p.challenge.realm ∷ []))
      else p.username

  unfoldable pub hash_a1 : (algo : Text) → DigestParams → Text
  unfolding hashed join
  hash_a1 algo p =
      let base = join (codes ":") (p.username ∷ p.challenge.realm ∷ p.password ∷ []) in
      if algo == codes "MD5-SESS"
      then hashed algo (join (codes ":") (hashed algo base ∷ p.challenge.nonce ∷ p.cnonce ∷ []))
      else hashed algo base

  unfoldable pub hash_a2 : (algo : Text) → DigestParams → Text
  unfolding hashed join to_ascii_uppercase
  hash_a2 algo p = hashed algo (join (codes ":") (to_ascii_uppercase p.method ∷ p.uri ∷ []))

  -- What is hashed, with `auth` or as in RFC 2069.
  unfoldable pub response_text : (algo : Text) → DigestParams → Text
  unfolding hash_a1 hash_a2 join hex_places
  response_text algo p = join (codes ":") (
      if offers_auth p.challenge
      then hash_a1 algo p
        ∷ p.challenge.nonce
        ∷ hex_places 8 p.nc
        ∷ p.cnonce
        ∷ codes "auth"
        ∷ hash_a2 algo p
        ∷ []
      else hash_a1 algo p ∷ p.challenge.nonce ∷ hash_a2 algo p ∷ [])

  unfoldable pub response_of : (algo : Text) → DigestParams → Text
  unfolding hashed response_text
  response_of algo p = hashed algo (response_text algo p)

  unfoldable pub answer_text : (algo : Text) → DigestParams → Text
  unfolding user_field response_of suffix
  answer_text algo p =
      codes "Digest username=\""
      ++ (user_field algo p
          ++ (codes "\", realm=\""
              ++ (p.challenge.realm
                  ++ (codes "\", nonce=\""
                      ++ (p.challenge.nonce
                          ++ (codes "\", uri=\""
                              ++ (p.uri
                                  ++ (codes "\", response=\""
                                      ++ (response_of algo p ++ (b'"' ∷ suffix algo p))))))))))

  unfoldable pub digest_authorization : DigestParams → Result SignError Text
  unfolding is_supported answer_text final_text to_ascii_uppercase
  digest_authorization p = do
    let algo = to_ascii_uppercase p.challenge.algorithm
    reject_if (not (is_supported algo)) (unsupported_algorithm p.challenge.algorithm)
    reject_if (not (offers_auth p.challenge) && not (no_choices p.challenge)) unsupported_qop
    ok (final_text p.challenge (answer_text algo p))
