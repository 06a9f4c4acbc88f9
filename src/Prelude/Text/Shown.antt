-- ===== src/Prelude/Text/Shown.antt =====
-- Decimal texts of different numbers differ.
use Prim.Native.Nat.{ℕ, ◌+◌, ◌-◌, ◌*◌, ◌/◌, ◌%◌, ◌<◌}
use mathlib.Core.Path.{◌≡◌, sym, ap, ◌∙◌}
use mathlib.Core.Logic.{dif_pos, dif_neg}
use mathlib.Core.List.{[], ◌∷◌}
use mathlib.Core.WellFounded.{Acc}
use native.Mathlib.Bridge.{le_prop}
use native.Mathlib.Decide.{dec_lt}
use native.Mathlib.Omega.{arith}
use rust_fox.Prelude.Order.{lt_wf}
use rust_fox.Prelude.Text.{Text, show_onto, show}

-- The value of the digits behind `acc`.
abbrev digits_value : (acc : ℕ) → Text → ℕ
digits_value acc [] = acc
digits_value acc (c ∷ s) = digits_value (acc * 10 + (c - b'0')) s

digits_value-show_onto :
    (n : ℕ) (w : Acc ◌<◌ n) (out : Text) → digits_value 0 (show_onto n w out) ≡ digits_value n out
unfolding show_onto
digits_value-show_onto n (Acc.intro _ smaller) out = elim (dec_lt 0 (n / 10)) [
  | yes more ↦ rw (dif_pos (dec_lt 0 (n / 10)) le_prop more) (
      digits_value-show_onto (n / 10) (smaller (n / 10) (omega arith)) ((b'0' + n % 10) ∷ out)
      ∙ ap (λ k. digits_value k out) (omega arith))
  | no last ↦ rw (dif_neg (dec_lt 0 (n / 10)) last) (ap (λ k. digits_value k out) (omega arith))
]

pub show_injective : (m n : ℕ) → show m ≡ show n → m ≡ n
unfolding show
show_injective m n e =
    sym (digits_value-show_onto m (lt_wf.apply m) [])
    ∙ ap (digits_value 0) e
    ∙ digits_value-show_onto n (lt_wf.apply n) []
