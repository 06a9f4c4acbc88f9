-- ===== src/Prelude/Utf8.antt =====
-- `str::as_bytes`: the UTF-8 form of a text.
use Prim.Native.Nat.{ℕ, ◌+◌, ◌/◌, ◌%◌, ◌<◌}
use mathlib.Core.List.{List, [], ◌∷◌, ◌++◌}
use native.Mathlib.Omega.{arith}
use rust_fox.Prelude.Lists.{All, All-append}
use rust_fox.Prelude.Tests.{leb, if◌then◌else◌}
use rust_fox.Prelude.Text.{Text}

unfoldable pub char_bytes : ℕ → List ℕ
char_bytes c =
    if leb c 0x7f
    then c ∷ []
    else if leb c 0x7ff
    then (0xc0 + c / 64) ∷ (0x80 + c % 64) ∷ []
    else if leb c 0xffff
    then (0xe0 + c / 4096) ∷ (0x80 + c / 64 % 64) ∷ (0x80 + c % 64) ∷ []
    else (0xf0 + c / 262144) ∷ (0x80 + c / 4096 % 64) ∷ (0x80 + c / 64 % 64) ∷ (0x80 + c % 64) ∷ []

unfoldable pub as_bytes : Text → List ℕ
unfolding char_bytes
as_bytes [] = []
as_bytes (c ∷ s) = char_bytes c ++ as_bytes s

char_bytes_bounded : (c : ℕ) → c < 0x110000 → All (λ b. b < 256) (char_bytes c)
unfolding char_bytes
char_bytes_bounded c h = ground arith

-- The code points of Unicode have bytes.
pub as_bytes_bounded : (s : Text) → All (λ c. c < 0x110000) s → All (λ b. b < 256) (as_bytes s)
unfolding as_bytes
as_bytes_bounded [] h = tt
as_bytes_bounded (c ∷ s) (h, hs) =
    All-append _ (char_bytes c) (as_bytes s) (char_bytes_bounded c h) (as_bytes_bounded s hs)
