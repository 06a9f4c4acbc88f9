-- ===== src/Http/Signature/Signed.antt =====
-- The headers of a signed request, as the server that checks them reads them.
use rust_fox.Prelude.{
  ℕ, ◌+◌, ◌-◌, ◌*◌, ◌/◌, ◌%◌, ◌<◌, ◌≡◌, refl, ap, ◌∙◌, Bool, true, false, List, [], ◌∷◌, ◌++◌,
  Option, none, some, All, leb, if◌then◌else◌, arith,
}
use rust_fox.Prelude.Int.{ℤ}
use rust_fox.Prelude.Result.{Result, ok, err, ◌>>◌, reject_if}
use rust_fox.Prelude.Text.{Text, is_empty, trim}
use rust_fox.Core.External.{Hashes}
use rust_fox.Core.Model.{
  SignatureAlgorithm, md5, sha256, hmac_sha256, SignatureEncoding, hex_lower, hex_upper, base64,
  DynamicSignatureConfig,
}
use rust_fox.Http.Signature.{
  show_ℤ, hex_digit, hex_encode, digest, encode, SignatureError, empty_key, empty_secret,
  empty_template, apply_signature,
}
use rust_fox.Http.Signature.Rendered.{replaced, render_payload-replaced}

-- A reader of hexadecimal digits of either case.
abbrev pub hex_value : ℕ → ℕ
hex_value c = if leb c b'9' then c - b'0' else if leb c b'F' then c - 55 else c - 87

unfoldable pub read_hex : Text → Option (List ℕ)
read_hex [] = some []
read_hex (c ∷ []) = none
read_hex (c ∷ d ∷ s) = elim (read_hex s) [
  | none ↦ none
  | some bs ↦ some ((16 * hex_value c + hex_value d) ∷ bs)
]

hex_value-lower : (d : ℕ) → d < 16 → hex_value (hex_digit 87 d) ≡ d
hex_value-lower d h = ground arith

hex_value-upper : (d : ℕ) → d < 16 → hex_value (hex_digit 55 d) ≡ d
hex_value-upper d h = ground arith

module _ (letters : ℕ) (values : (d : ℕ) → d < 16 → hex_value (hex_digit letters d) ≡ d) where
  read_byte :
      (b : ℕ)
      → b < 256
      → 16 * hex_value (hex_digit letters (b / 16)) + hex_value (hex_digit letters (b % 16)) ≡ b
  read_byte b h =
      ap (λ n. 16 * n + hex_value (hex_digit letters (b % 16))) (values (b / 16) (omega arith))
      ∙ ap (λ n. 16 * (b / 16) + n) (values (b % 16) (omega arith))
      ∙ omega arith

  read_hex-hex_encode :
      (bs : List ℕ) → All (λ b. b < 256) bs → read_hex (hex_encode letters bs) ≡ some bs
  unfolding read_hex hex_encode
  read_hex-hex_encode [] h = refl
  read_hex-hex_encode (b ∷ bs) (h, hs) =
      rw (read_hex-hex_encode bs hs) (ap (λ n. some (n ∷ bs)) (read_byte b h))

module _ (hashes : Hashes) where
  -- The signature carries these bytes.
  pub Carries : SignatureEncoding → Text → List ℕ → Type 0
  Carries hex_lower sig bytes = read_hex sig ≡ some bytes
  Carries hex_upper sig bytes = read_hex sig ≡ some bytes
  Carries base64 sig bytes = sig ≡ hashes.base64 bytes

  encode-Carries :
      (encoding : SignatureEncoding) (bs : List ℕ)
      → All (λ b. b < 256) bs
      → Carries encoding (encode hashes encoding bs) bs
  unfolding encode Carries
  encode-Carries hex_lower bs h = read_hex-hex_encode 87 hex_value-lower bs h
  encode-Carries hex_upper bs h = read_hex-hex_encode 55 hex_value-upper bs h
  encode-Carries base64 bs h = refl

  digest_bounded :
      (algorithm : SignatureAlgorithm) (secret payload : Text)
      → All (λ b. b < 256) (digest hashes algorithm secret payload)
  unfolding digest
  digest_bounded md5 secret payload = hashes.md5_bytes _
  digest_bounded sha256 secret payload = hashes.sha256_bytes _
  digest_bounded hmac_sha256 secret payload = hashes.hmac_sha256_bytes _ _

  -- The bytes that the server computes from the key, the timestamp and the secret that it knows.
  abbrev pub expected_bytes : ℤ → DynamicSignatureConfig → List ℕ
  unfolding digest replaced trim
  expected_bytes now_ms config =
      digest hashes config.algorithm (trim config.app_secret)
        (replaced (trim config.app_key) (trim config.app_secret) now_ms 0 config.payload_template)

  -- What becomes of the headers.
  pub data IsSigned (now_ms : ℤ) (headers : List (Text × Text)) (config : DynamicSignatureConfig)
      : Result SignatureError (List (Text × Text)) → Type 0 where
    no_key : trim config.app_key ≡ [] → IsSigned now_ms headers config (err empty_key)
    no_secret :
        is_empty (trim config.app_key) ≡ false
        → trim config.app_secret ≡ []
        → IsSigned now_ms headers config (err empty_secret)
    no_template :
        is_empty (trim config.app_key) ≡ false
        → is_empty (trim config.app_secret) ≡ false
        → trim config.payload_template ≡ []
        → IsSigned now_ms headers config (err empty_template)
    signed :
        is_empty (trim config.app_key) ≡ false
        → is_empty (trim config.app_secret) ≡ false
        → is_empty (trim config.payload_template) ≡ false
        → (sig : Text) → Carries config.encoding sig (expected_bytes now_ms config)
        → IsSigned now_ms headers config (
            ok (
              headers
              ++ (config.key_header, trim config.app_key)
                ∷ (config.timestamp_header, show_ℤ now_ms)
                ∷ (config.sig_header, sig)
                ∷ []))

  empty_nil : (t : Text) → is_empty t ≡ true → t ≡ []
  empty_nil [] h = refl
  empty_nil (c ∷ t) h = ground arith

  module _ (now_ms : ℤ) (headers : List (Text × Text)) (config : DynamicSignatureConfig) where
    -- The headers, given the signature.
    abbrev with_signature : Text → List (Text × Text)
    unfolding trim show_ℤ
    with_signature sig =
        headers
        ++ (config.key_header, trim config.app_key)
          ∷ (config.timestamp_header, show_ℤ now_ms)
          ∷ (config.sig_header, sig)
          ∷ []

    by_guards :
        (a b c : Bool) (sig : Text)
        → is_empty (trim config.app_key) ≡ a
        → is_empty (trim config.app_secret) ≡ b
        → is_empty (trim config.payload_template) ≡ c
        → Carries config.encoding sig (expected_bytes now_ms config)
        → IsSigned now_ms headers config (
            reject_if a empty_key
            >> (reject_if b empty_secret
                >> (reject_if c empty_template >> ok (with_signature sig))))
    unfolding with_signature
    by_guards true b c sig e f g h = no_key (empty_nil _ e)
    by_guards false true c sig e f g h = no_secret e (empty_nil _ f)
    by_guards false false true sig e f g h = no_template e f (empty_nil _ g)
    by_guards false false false sig e f g h = signed e f g sig h

    -- A key, a secret or a template that is blank is an error, the first of them in this order; else
    -- the three headers follow those that are there, under the names of the configuration: the trimmed
    -- key, the decimal timestamp, and a signature that carries, in hexadecimal digits of either case or
    -- in Base64, the digest of the payload in which each placeholder of the template is replaced in one
    -- pass.
    pub apply_signature-IsSigned :
        IsSigned now_ms headers config (apply_signature hashes now_ms headers config)
    unfolding apply_signature with_signature Carries expected_bytes
    apply_signature-IsSigned = by_guards _ _ _ _ refl refl refl (
        rw (← render_payload-replaced _ _ now_ms config.payload_template)
          (encode-Carries config.encoding _ (digest_bounded config.algorithm _ _)))
