-- ===== src/Sign/Digest/Answer/Answered.antt =====
-- A server reads the answer to its challenge back, without an opaque value too.
use rust_fox.Prelude.{◌≡◌, true, false, not, ◌&&◌, List, [], ◌++◌, map, list_eq, nat_eq}
use rust_fox.Prelude.Result.{Result, ok, err}
use rust_fox.Prelude.Text.{Text, to_ascii_uppercase}
use rust_fox.Core.External.{Hashes}
use rust_fox.Sign.{SignError, unsupported_algorithm, unsupported_qop}
use rust_fox.Sign.Digest.{split_challenge_params, skip}
use rust_fox.Sign.Digest.Scanned.{write_onto, write_behind}
use rust_fox.Sign.Digest.Answer.{DigestParams, is_supported, offers_auth, no_choices}
use rust_fox.Sign.Digest.Answer.Readable.{user_pair, later_pairs, answer_pairs}
use rust_fox.Sign.Digest.Answer.Replaced.{lacks_comma}
use rust_fox.Sign.Digest.Answer.Rfc.{expected_pairs}

-- No commas in the values that are written.
pub record AreCommaless (p : DigestParams) : Type 0 where
  pub username : lacks_comma p.username ≡ true
  pub realm : lacks_comma p.challenge.realm ≡ true
  pub nonce : lacks_comma p.challenge.nonce ≡ true
  pub uri : lacks_comma p.uri ≡ true

module _ (hashes : Hashes) where
  -- What becomes of a challenge.
  pub data IsAnswered (p : DigestParams) : Result SignError Text → Type 0 where
    unsupported :
        is_supported (to_ascii_uppercase p.challenge.algorithm) ≡ false
        → IsAnswered p (err (unsupported_algorithm p.challenge.algorithm))
    no_auth :
        is_supported (to_ascii_uppercase p.challenge.algorithm) ≡ true
        → (not (offers_auth p.challenge) && not (no_choices p.challenge)) ≡ true
        → IsAnswered p (err unsupported_qop)
    answer :
        is_supported (to_ascii_uppercase p.challenge.algorithm) ≡ true
        → (not (offers_auth p.challenge) && not (no_choices p.challenge)) ≡ false
        → (header : Text) (more : List Text)
        → split_challenge_params (skip 7 header)
          ≡ map
              (λ q. write_onto q [])
              (expected_pairs hashes (to_ascii_uppercase p.challenge.algorithm) p)
            ++ more
        → IsAnswered p (ok header)

  written : (algo : Text) (tail : Text) → DigestParams → Text
  unfolding user_pair later_pairs write_onto write_behind
  written algo tail p =
      write_onto (user_pair hashes algo p) (write_behind tail (later_pairs hashes algo p))

  -- What a server reads behind the name of the scheme.
  Reads : (algo : Text) → DigestParams → (header : Text) → Type 0
  Reads algo p header =
      (more : List Text) × (split_challenge_params (skip 7 header)
        ≡ map (λ q. write_onto q []) (answer_pairs hashes algo p) ++ more)
