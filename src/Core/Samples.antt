-- ===== src/Core/Samples.antt =====
-- Sources, case mappings, hash functions and counters to run the code on.
use rust_fox.Prelude.{
  ℕ, ◌-◌, ◌+◌, ◌%◌, ◌<◌, ◌≡◌, refl, true, false, List, [], ◌∷◌, map, All, all, if◌then◌else◌, ◌++◌,
  arith,
}
use rust_fox.Prelude.Text.{codes, show, in_range}
use rust_fox.Core.External.{Sources, CaseMaps, is_hex_digit, Hashes}
use rust_fox.Core.Variable.{World}

-- Every draw is 0.
abbrev pub no_luck : Sources
no_luck = record {
  new_v4 = λ n. codes "6f9619ff-" ++ show n;
  timestamp = λ n. codes "1700000000";
  iso_timestamp = λ n. codes "2023-11-14T22:13:20.000Z";
  random = λ calls b. 0;
  random_lt = λ calls b pos. pos;
}

abbrev upper : ℕ → ℕ
upper c = if in_range b'a' b'z' c then c - 32 else c

abbrev lower : ℕ → ℕ
lower c = if in_range b'A' b'Z' c then c + 32 else c

-- The mappings on the letters of ASCII.
abbrev pub ascii : CaseMaps
ascii = record { to_lowercase = map lower; to_uppercase = map upper }

abbrev pub new_world : World
new_world = record { draws = 0; counters = []; dirty = false }

-- Hash functions that forget all but the first byte.
abbrev first_byte : List ℕ → List ℕ
first_byte [] = 0 ∷ []
first_byte (b ∷ bs) = b % 256 ∷ []

pub bounded : (m : List ℕ) → All (λ b. b < 256) (first_byte m)
bounded [] = (omega arith, tt)
bounded (b ∷ bs) = (omega arith, tt)

pub digits : (m : List ℕ) → all is_hex_digit (map (λ b. b'0' + b % 10) m) ≡ true
digits [] = refl
digits (b ∷ m) = ground (arith, digits m)

abbrev pub hashes : Hashes
hashes = record {
  md5 = first_byte;
  sha256 = first_byte;
  hmac_sha256 = λ key m. first_byte m;
  hex = λ m. map (λ b. b'0' + b % 10) m;
  base64 = λ m. codes "AA==";
  hex_digits = digits;
  md5_bytes = bounded;
  sha256_bytes = bounded;
  hmac_sha256_bytes = λ key m. bounded m;
}
