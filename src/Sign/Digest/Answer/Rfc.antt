-- ===== src/Sign/Digest/Answer/Rfc.antt =====
-- The Digest answer as RFC 7616 writes it down, for the code to be compared with.
use mathlib.Core.Path.{fun_ext}
use rust_fox.Prelude.{
  ◌≡◌, refl, Bool, true, false, ◌||◌, List, [], ◌∷◌, ◌++◌, if◌then◌else◌, any, ◌==◌, list_eq,
  nat_eq, arith, ap, ◌∙◌,
}
use rust_fox.Prelude.Text.{Text, codes, join, starts_with, to_ascii_uppercase}
use rust_fox.Prelude.Utf8.{as_bytes}
use rust_fox.Core.External.{Hashes}
use rust_fox.Sign.Digest.Answer.{
  DigestParams, hashed, is_sha256, user_field, hash_a1, hash_a2, response_text, response_of,
  offers_auth, hex_places,
}
use rust_fox.Sign.Digest.Answer.Readable.{answer_pairs}
use rust_fox.Sign.Digest.Scanned.{Pair}

-- `H`
abbrev pub digest_of : Hashes → (algorithm : Text) → Text → Text
digest_of hashes algorithm t = hashes.hex (
    if starts_with algorithm (codes "SHA-256") || starts_with algorithm (codes "SHA256")
    then hashes.sha256 (as_bytes t)
    else hashes.md5 (as_bytes t))

abbrev colon : Text
colon = b':' ∷ []

-- With `H`: the user, A1, A2 and the response, from the texts that go into them.
module _ (h : Text → Text) where
  abbrev pub shown_user : (is_hashed : Bool) → (user realm : Text) → Text
  shown_user true user realm = h (user ++ (colon ++ realm))
  shown_user false user realm = user

  abbrev pub secret : (is_session : Bool) → (user realm password nonce cnonce : Text) → Text
  secret true user realm password nonce cnonce = h (
      h (user ++ (colon ++ (realm ++ (colon ++ password))))
      ++ (colon ++ (nonce ++ (colon ++ cnonce))))
  secret false user realm password nonce cnonce =
      h (user ++ (colon ++ (realm ++ (colon ++ password))))

  abbrev pub response : (with_auth : Bool) → (a1 nonce count cnonce a2 : Text) → Text
  response true a1 nonce count cnonce a2 = h (
      a1
      ++ (colon
          ++ (nonce
              ++ (colon
                  ++ (count
                      ++ (colon ++ (cnonce ++ (colon ++ (codes "auth" ++ (colon ++ a2))))))))))
  response false a1 nonce count cnonce a2 = h (a1 ++ (colon ++ (nonce ++ (colon ++ a2))))

  shown_user-if :
      (b : Bool) (user realm : Text)
      → (if b then h (join (codes ":") (user ∷ realm ∷ [])) else user) ≡ shown_user b user realm
  unfolding join
  shown_user-if true user realm = refl
  shown_user-if false user realm = refl

  secret-if :
      (b : Bool) (user realm password nonce cnonce : Text)
      → (let base = join (codes ":") (user ∷ realm ∷ password ∷ []) in
          if b then h (join (codes ":") (h base ∷ nonce ∷ cnonce ∷ [])) else h base)
        ≡ secret b user realm password nonce cnonce
  unfolding join
  secret-if true user realm password nonce cnonce = refl
  secret-if false user realm password nonce cnonce = refl

  response-if :
      (b : Bool) (a1 nonce count cnonce a2 : Text)
      → h (
          join (codes ":") (
            if b
            then a1 ∷ nonce ∷ count ∷ cnonce ∷ codes "auth" ∷ a2 ∷ []
            else a1 ∷ nonce ∷ a2 ∷ []))
        ≡ response b a1 nonce count cnonce a2
  unfolding join
  response-if true a1 nonce count cnonce a2 = refl
  response-if false a1 nonce count cnonce a2 = refl

hashed-digest_of :
    (hashes : Hashes) (algorithm t : Text)
    → hashed hashes algorithm t ≡ digest_of hashes algorithm t
unfolding hashed is_sha256
hashed-digest_of hashes algorithm t = ground arith

module _ (hashes : Hashes) (algorithm : Text) (p : DigestParams) where
  abbrev pub expected_user : Text
  expected_user =
      shown_user (digest_of hashes algorithm) p.challenge.userhash p.username p.challenge.realm

  abbrev pub expected_response : Text
  expected_response =
      let h = digest_of hashes algorithm in
      response h (any (λ q. q == codes "auth") p.challenge.qop)
        (secret h (algorithm == codes "MD5-SESS") p.username p.challenge.realm p.password
          p.challenge.nonce p.cnonce)
        p.challenge.nonce (hex_places 8 p.nc) p.cnonce
        (h (to_ascii_uppercase p.method ++ (colon ++ p.uri)))

  -- What the header says first.
  abbrev pub expected_pairs : List Pair
  expected_pairs =
      (codes "username", expected_user)
      ∷ (codes "realm", p.challenge.realm)
      ∷ (codes "nonce", p.challenge.nonce)
      ∷ (codes "uri", p.uri)
      ∷ (codes "response", expected_response)
      ∷ []

  same_hash : hashed hashes algorithm ≡ digest_of hashes algorithm
  same_hash = fun_ext (hashed-digest_of hashes algorithm)

  user_field-expected : user_field hashes algorithm p ≡ expected_user
  unfolding user_field
  user_field-expected =
      shown_user-if (hashed hashes algorithm) p.challenge.userhash p.username p.challenge.realm
      ∙ ap (λ h. shown_user h p.challenge.userhash p.username p.challenge.realm) same_hash

  hash_a1-secret :
      hash_a1 hashes algorithm p
      ≡ secret
          (hashed hashes algorithm)
          (algorithm == codes "MD5-SESS")
          p.username
          p.challenge.realm
          p.password
          p.challenge.nonce
          p.cnonce
  unfolding hash_a1
  hash_a1-secret =
      secret-if (hashed hashes algorithm) (algorithm == codes "MD5-SESS") p.username
        p.challenge.realm p.password p.challenge.nonce p.cnonce

  hash_a2-hashed :
      hash_a2 hashes algorithm p
      ≡ hashed hashes algorithm (to_ascii_uppercase p.method ++ (colon ++ p.uri))
  unfolding hash_a2 join
  hash_a2-hashed = refl

  response_of-expected : response_of hashes algorithm p ≡ expected_response
  unfolding response_of response_text
  response_of-expected =
      response-if (hashed hashes algorithm) (offers_auth p.challenge) (hash_a1 hashes algorithm p)
        p.challenge.nonce (hex_places 8 p.nc) p.cnonce (hash_a2 hashes algorithm p)
      ∙ ap
          (λ a1.
            response (hashed hashes algorithm) (offers_auth p.challenge) a1 p.challenge.nonce
              (hex_places 8 p.nc) p.cnonce (hash_a2 hashes algorithm p))
          hash_a1-secret
      ∙ ap
          (λ a2.
            response (hashed hashes algorithm) (offers_auth p.challenge)
              (secret (hashed hashes algorithm) (algorithm == codes "MD5-SESS") p.username
                p.challenge.realm p.password p.challenge.nonce p.cnonce)
              p.challenge.nonce (hex_places 8 p.nc) p.cnonce a2)
          hash_a2-hashed
      ∙ ap
          (λ h.
            response h (offers_auth p.challenge)
              (secret h (algorithm == codes "MD5-SESS") p.username p.challenge.realm p.password
                p.challenge.nonce p.cnonce)
              p.challenge.nonce (hex_places 8 p.nc) p.cnonce
              (h (to_ascii_uppercase p.method ++ (colon ++ p.uri))))
          same_hash

  pub answer_pairs-expected : answer_pairs hashes algorithm p ≡ expected_pairs
  unfolding answer_pairs
  answer_pairs-expected = rw (user_field-expected, response_of-expected) refl
