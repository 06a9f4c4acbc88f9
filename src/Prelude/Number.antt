-- ===== src/Prelude/Number.antt =====
-- `str::parse` for signed integers of the standard library.
use rust_fox.Prelude.Int.{ℤ, pos, negsuc}
use rust_fox.Prelude.Tests.{leb, eqb, if◌then◌else◌}
use rust_fox.Prelude.Text.{Text, in_range}
use Prim.Native.Nat.{ℕ, zero, suc, ◌+◌, ◌-◌, ◌*◌, ◌^◌}
use mathlib.Core.List.{[], ◌∷◌}
use mathlib.Core.Option.{Option, none, some}

-- The value of a run of decimal digits behind `n`.
abbrev pub digits_from : ℕ → Text → Option ℕ
digits_from n [] = some n
digits_from n (c ∷ s) =
    let rest = digits_from (n * 10 + (c - b'0')) s in if in_range b'0' b'9' c then rest else none

abbrev pub digits : Text → Option ℕ
digits [] = none
digits (c ∷ s) = digits_from 0 (c ∷ s)

abbrev pub negate : ℕ → ℤ
negate zero = pos 0
negate (suc n) = negsuc n

abbrev in_i64 : Option ℕ → Option ℤ
in_i64 none = none
in_i64 (some n) = if leb n (2 ^ 63 - 1) then some (pos n) else none

abbrev in_negative_i64 : Option ℕ → Option ℤ
in_negative_i64 none = none
in_negative_i64 (some n) = if leb n (2 ^ 63) then some (negate n) else none

-- `parse::<i64>().ok()`: one sign at most, then digits, with the value in range.
unfoldable pub parse_i64 : Text → Option ℤ
parse_i64 [] = none
parse_i64 (c ∷ s) =
    if eqb c b'+'
    then in_i64 (digits s)
    else if eqb c b'-'
    then in_negative_i64 (digits s)
    else in_i64 (digits (c ∷ s))
