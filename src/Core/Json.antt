-- ===== src/Core/Json.antt =====
-- `serde_json::Value`: integers in the range of `i64` or `u64`, other numbers as values of a type
-- `F`, and objects as their pairs in the order in which the map gives them.
use rust_fox.Prelude.{Bool}
use rust_fox.Prelude.Int.{ℤ}
use rust_fox.Prelude.Text.{Text}

mutual
  pub data Json (F : Type 0) : Type 0 where
    null : Json F
    bool : Bool → Json F
    integer : ℤ → Json F
    float : F → Json F
    string : Text → Json F
    array : Items F → Json F
    object : Members F → Json F

  pub data Items (F : Type 0) : Type 0 where
    nil : Items F
    cons : Json F → Items F → Items F

  pub data Members (F : Type 0) : Type 0 where
    none_left : Members F
    member : Text → Json F → Members F → Members F

unfoldable pub append : {F : Type 0} → Items F → Items F → Items F
append nil ys = ys
append (cons x xs) ys = cons x (append xs ys)
