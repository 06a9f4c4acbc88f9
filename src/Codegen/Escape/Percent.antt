-- ===== src/Codegen/Escape/Percent.antt =====
-- Percent-encoding is undone by percent-decoding.
use rust_fox.Prelude.{
  ℕ, ◌+◌, ◌-◌, ◌*◌, ◌/◌, ◌%◌, ◌<◌, ◌≡◌, refl, ap, ◌∙◌, List, [], ◌∷◌, ◌++◌, Option, none, some, All,
  eqb, leb, if◌then◌else◌, Bool-cases, inl, inr, arith,
}
use rust_fox.Prelude.Text.{Text}
use rust_fox.Prelude.Utf8.{as_bytes, as_bytes_bounded}
use rust_fox.Codegen.Escape.{is_unreserved, hex, encode_byte, encode_bytes, encode_component}

-- What the reader waits for.
pub data Awaited : Type 0 where
  any_char first_digit : Awaited
  second_digit : (first : ℕ) → Awaited

abbrev pub digit : ℕ → ℕ
digit c = if leb c b'9' then c - b'0' else c - 55

abbrev pub push_byte : ℕ → Option (List ℕ) → Option (List ℕ)
push_byte b none = none
push_byte b (some bs) = some (b ∷ bs)

-- The bytes of a percent-encoded text.
unfoldable pub percent_decode : Awaited → Text → Option (List ℕ)
percent_decode any_char [] = some []
percent_decode _ [] = none
percent_decode any_char (c ∷ s) =
    let behind = percent_decode first_digit s in
    let further = percent_decode any_char s in if eqb c b'%' then behind else push_byte c further
percent_decode first_digit (c ∷ s) = percent_decode (second_digit (digit c)) s
percent_decode (second_digit d) (c ∷ s) = push_byte (16 * d + digit c) (percent_decode any_char s)

digit-hex : (d : ℕ) → d < 16 → digit (hex d) ≡ d
digit-hex d h = ground arith

percent_decode-encode_byte :
    (b : ℕ) (s : Text)
    → b < 256
    → percent_decode any_char (encode_byte b ++ s) ≡ push_byte b (percent_decode any_char s)
unfolding percent_decode encode_byte
percent_decode-encode_byte b s h = elim (Bool-cases (is_unreserved b)) [
  | inl plain ↦ ground arith
  | inr coded ↦
      rw (coded, digit-hex (b / 16) (omega arith), digit-hex (b % 16) (omega arith))
        (ap (λ n. push_byte n (percent_decode any_char s)) (omega arith))
]

percent_decode-encode_bytes :
    (bs : List ℕ) → All (λ b. b < 256) bs → percent_decode any_char (encode_bytes bs) ≡ some bs
unfolding encode_bytes
percent_decode-encode_bytes [] h = unfold percent_decode in refl
percent_decode-encode_bytes (b ∷ bs) (h, hs) =
    percent_decode-encode_byte b (encode_bytes bs) h
    ∙ ap (push_byte b) (percent_decode-encode_bytes bs hs)

-- Percent-decoding an encoded text gives the bytes of the text, if its characters are code points
-- of Unicode.
pub percent_decode-encode_component :
    (s : Text)
    → All (λ c. c < 0x110000) s
    → percent_decode any_char (encode_component s) ≡ some (as_bytes s)
unfolding encode_component
percent_decode-encode_component s h =
    percent_decode-encode_bytes (as_bytes s) (as_bytes_bounded s h)
