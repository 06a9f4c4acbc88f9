-- ===== src/Http/Signature.antt =====
-- fox-http/src/signature.rs: the dynamic signature of a request, in the layers payload, digest and
-- encoding. The hash functions and the clock are parameters.
pub mod Rendered
pub mod Signed
mod Tests
use rust_fox.Prelude.{
  ℕ, zero, suc, ◌+◌, ◌/◌, ◌%◌, Bool, ◌&&◌, not, List, [], ◌∷◌, ◌++◌, Option, none, some, leb, ltb,
  length, if◌then◌else◌,
}
use rust_fox.Prelude.Int.{ℤ, pos, negsuc}
use rust_fox.Prelude.Result.{Result, ok, err, ◌>>=◌, ◌>>◌, reject_if}
use rust_fox.Prelude.Text.{Text, codes, is_empty, trim, contains, split_once, show}
use rust_fox.Prelude.Utf8.{as_bytes}
use rust_fox.Core.External.{Hashes}
use rust_fox.Core.Model.{
  SignatureAlgorithm, md5, sha256, hmac_sha256, SignatureEncoding, hex_lower, hex_upper, base64,
  DynamicSignatureConfig,
}

-- The three placeholders, and how each is written.
pub data Placeholder : Type 0 where
  key_placeholder secret_placeholder timestamp_placeholder : Placeholder

unfoldable pub pattern_of : Placeholder → Text
pattern_of key_placeholder = codes "{{$key}}"
pattern_of secret_placeholder = codes "{{$secret}}"
pattern_of timestamp_placeholder = codes "{{$timestamp}}"

-- `to_string` of an `i64`.
unfoldable pub show_ℤ : ℤ → Text
unfolding show
show_ℤ (pos n) = show n
show_ℤ (negsuc n) = b'-' ∷ show (suc n)

-- A placeholder that was found, with what stands before it and behind it.
abbrev pub Found : Type 0
Found = Placeholder × Text × Text

-- An index that is smaller than the one so far is taken.
abbrev pub closer : Placeholder → Option (Text × Text) → Option Found → Option Found
closer p none next = next
closer p (some (a, b)) none = some (p, a, b)
closer p (some (a, b)) (some (q, a', b')) =
    if ltb (length a) (length a') then some (p, a, b) else some (q, a', b')

abbrev pub find_pattern : Placeholder → Text → Option (Text × Text)
unfolding split_once pattern_of
find_pattern p rest = split_once (pattern_of p) rest

unfoldable pub nearest : Text → Option Found
unfolding split_once pattern_of
nearest rest = closer timestamp_placeholder (find_pattern timestamp_placeholder rest) (
    closer secret_placeholder (find_pattern secret_placeholder rest)
      (closer key_placeholder (find_pattern key_placeholder rest) none))

module _ (key secret : Text) (timestamp : ℤ) where
  unfoldable pub value_of : Placeholder → Text
  unfolding show_ℤ
  value_of key_placeholder = key
  value_of secret_placeholder = secret
  value_of timestamp_placeholder = show_ℤ timestamp

  -- The loop; the fuel bounds the number of rounds.
  unfoldable pub render_rounds : (fuel : ℕ) → Text → Text
  unfolding nearest value_of
  render_rounds zero rest = rest
  render_rounds (suc fuel) rest = elim (nearest rest) [
    | none ↦ rest
    | some (p, a, b) ↦ a ++ (value_of p ++ render_rounds fuel b)
  ]

  unfoldable pub render_payload : Text → Text
  unfolding render_rounds split_once pattern_of
  render_payload template =
      if not (contains template (pattern_of key_placeholder))
        && (not (contains template (pattern_of secret_placeholder))
            && not (contains template (pattern_of timestamp_placeholder)))
      then template
      else render_rounds (suc (length template)) template

-- `{b:02x}` and `{b:02X}`; `letters` is the code of the letter for ten, less ten: 87 or 55.
abbrev pub hex_digit : ℕ → ℕ → ℕ
hex_digit letters d = if leb d 9 then b'0' + d else letters + d

unfoldable pub hex_encode : ℕ → List ℕ → Text
hex_encode letters [] = []
hex_encode letters (b ∷ bs) =
    hex_digit letters (b / 16) ∷ hex_digit letters (b % 16) ∷ hex_encode letters bs

module _ (hashes : Hashes) where
  unfoldable pub digest : SignatureAlgorithm → (secret payload : Text) → List ℕ
  unfolding as_bytes
  digest md5 secret payload = hashes.md5 (as_bytes payload)
  digest sha256 secret payload = hashes.sha256 (as_bytes payload)
  digest hmac_sha256 secret payload = hashes.hmac_sha256 (as_bytes secret) (as_bytes payload)

  unfoldable pub encode : SignatureEncoding → List ℕ → Text
  unfolding hex_encode
  encode hex_lower bytes = hex_encode 87 bytes
  encode hex_upper bytes = hex_encode 55 bytes
  encode base64 bytes = hashes.base64 bytes

-- The validation errors, without their texts.
pub data SignatureError : Type 0 where
  empty_key empty_secret empty_template : SignatureError

-- `Utc::now().timestamp_millis()` is `now_ms`.
unfoldable pub apply_signature :
    Hashes
    → (now_ms : ℤ) → List (Text × Text)
    → DynamicSignatureConfig
    → Result SignatureError (List (Text × Text))
unfolding trim render_payload digest encode show_ℤ
apply_signature hashes now_ms headers config = do
  let key = trim config.app_key
  let secret = trim config.app_secret
  reject_if (is_empty key) empty_key
  reject_if (is_empty secret) empty_secret
  reject_if (is_empty (trim config.payload_template)) empty_template
  let payload = render_payload key secret now_ms config.payload_template
  let sig = encode hashes config.encoding (digest hashes config.algorithm secret payload)
  ok (
      headers
      ++ (config.key_header, key)
        ∷ (config.timestamp_header, show_ℤ now_ms)
        ∷ (config.sig_header, sig)
        ∷ [])
