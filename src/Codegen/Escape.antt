-- ===== src/Codegen/Escape.antt =====
-- fox-codegen/src/util.rs: escaping and percent-encoding.
pub mod Percent
pub mod Literals
use rust_fox.Prelude.{ℕ, ◌+◌, ◌/◌, ◌%◌, Bool, ◌||◌, List, [], ◌∷◌, ◌++◌, leb, eqb, if◌then◌else◌}
use rust_fox.Prelude.Text.{Text, codes, in_range}
use rust_fox.Prelude.Utf8.{as_bytes}

abbrev pub is_unreserved : ℕ → Bool
is_unreserved b =
    in_range b'a' b'z' b
    || in_range b'A' b'Z' b
    || in_range b'0' b'9' b
    || eqb b b'-'
    || eqb b b'_'
    || eqb b b'.'
    || eqb b b'~'

-- `HEX[d]`
abbrev pub hex : ℕ → ℕ
hex d = if leb d 9 then b'0' + d else 55 + d

unfoldable pub encode_byte : ℕ → Text
encode_byte b = if is_unreserved b then b ∷ [] else b'%' ∷ hex (b / 16) ∷ hex (b % 16) ∷ []

unfoldable pub encode_bytes : List ℕ → Text
unfolding encode_byte
encode_bytes [] = []
encode_bytes (b ∷ bs) = encode_byte b ++ encode_bytes bs

unfoldable pub encode_component : Text → Text
unfolding encode_bytes as_bytes
encode_component s = encode_bytes (as_bytes s)

-- `s.replace('\'', "'\\''")`
unfoldable pub sq : Text → Text
sq [] = []
sq (c ∷ s) = if eqb c b'\'' then codes "'\\''" ++ sq s else c ∷ sq s

unfoldable pub escape : ℕ → Text
escape c =
    if eqb c b'"'
    then codes "\\\""
    else if eqb c b'\\'
    then codes "\\\\"
    else if eqb c 10
    then codes "\\n"
    else if eqb c 13
    then codes "\\r"
    else if eqb c 9
    then codes "\\t"
    else c ∷ []

unfoldable pub dq : Text → Text
unfolding escape
dq [] = []
dq (c ∷ s) = escape c ++ dq s
