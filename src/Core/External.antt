-- ===== src/Core/External.antt =====
-- What the program takes from outside its own source: the clock, random draws, fresh UUIDs, hashes, and the
-- Unicode case mappings. Each is a parameter of the definitions that use it.
use rust_fox.Prelude.{ℕ, ◌<◌, ◌≡◌, Bool, true, ◌||◌, List, All, all}
use rust_fox.Prelude.Text.{Text, in_range}

-- The argument of each source counts the calls made so far, so that two calls may differ.
pub record Sources : Type 0 where
  -- `Uuid::new_v4().to_string()`
  pub new_v4 : ℕ → Text
  -- `Utc::now().timestamp().to_string()`
  pub timestamp : ℕ → Text
  -- `Utc::now().to_rfc3339_opts(Millis, true)`
  pub iso_timestamp : ℕ → Text
  -- `rand::random_range(0..b)` is `random calls b`, and lies in the range if that is not empty.
  pub random : ℕ → ℕ → ℕ
  pub random_lt : (calls b : ℕ) → 0 < b → random calls b < b

-- `str::to_lowercase` and `str::to_uppercase`.
pub record CaseMaps : Type 0 where
  pub to_lowercase : Text → Text
  pub to_uppercase : Text → Text

abbrev pub is_hex_digit : ℕ → Bool
is_hex_digit c = in_range b'0' b'9' c || in_range b'a' b'f' c

-- The hash functions of the crates `md5`, `sha2` and `hmac`, and `hex::encode` and standard Base64, on
-- bytes.
pub record Hashes : Type 0 where
  pub md5 : List ℕ → List ℕ
  pub sha256 : List ℕ → List ℕ
  pub hmac_sha256 : (key message : List ℕ) → List ℕ
  pub hex : List ℕ → Text
  pub base64 : List ℕ → Text
  pub hex_digits : (m : List ℕ) → all is_hex_digit (hex m) ≡ true
  pub md5_bytes : (m : List ℕ) → All (λ b. b < 256) (md5 m)
  pub sha256_bytes : (m : List ℕ) → All (λ b. b < 256) (sha256 m)
  pub hmac_sha256_bytes : (key m : List ℕ) → All (λ b. b < 256) (hmac_sha256 key m)
