-- ===== src/Codegen/Registry/Fresh.antt =====
-- The name of a new record is not in use, so the search for a suffix ends.
use mathlib.Core.List.{append_cancel_left}
use rust_fox.Prelude.{
  ℕ, zero, suc, ◌+◌, ◌≤◌, ◌<◌, ◌≡◌, refl, sym, ◌∙◌, inl, inr, true, false, not, List, [], ◌∷◌, ◌++◌,
  length, keep, ◌==◌, list_eq, nat_eq, list_beq_iff, Bool-cases, arith, reverse,
}
use rust_fox.Prelude.Text.Shown.{show_injective}
use rust_fox.Prelude.Text.{Text, show}
use rust_fox.Codegen.Registry.{NameRegistry, contains, numbered, qualified, fresh_name}

-- The names without `x`.
abbrev without : Text → List Text → List Text
without x = keep (λ n. not (n == x))

contains-without :
    (x y : Text) (names : List Text)
    → (x == y) ≡ false
    → contains (without x names) y ≡ contains names y
contains-without x y [] h = refl
contains-without x y (n ∷ names) h =
    ground
      (arith, contains-without x y names h, list_beq_iff n x, list_beq_iff n y, list_beq_iff x y)

length-without_le : (x : Text) (names : List Text) → length (without x names) ≤ length names
length-without_le x [] = omega arith
length-without_le x (n ∷ names) = ground (arith, length-without_le x names)

length-without :
    (x : Text) (names : List Text)
    → contains names x ≡ true
    → length (without x names) < length names
length-without x [] h = cc
length-without x (n ∷ names) h = ground (arith, length-without x names, length-without_le x names)

suffixes_differ :
    (candidate : Text) (m n : ℕ) → m < n → (candidate ++ show m == candidate ++ show n) ≡ false
suffixes_differ candidate m n h = elim (Bool-cases (candidate ++ show m == candidate ++ show n)) [
  | inl same ↦
      let e =
        show_injective m n
          (append_cancel_left candidate (show m) (show n) ((list_beq_iff _ _).0 same)) in
      absurd (omega arith)
  | inr apart ↦ apart
]

-- A name in use below the suffix does not matter.
numbered-without :
    (fuel suffix m : ℕ) (names : List Text) (candidate : Text)
    → m < suffix
    → numbered fuel suffix (without (candidate ++ show m) names) candidate
      ≡ numbered fuel suffix names candidate
unfolding numbered
numbered-without zero suffix m names candidate h = refl
numbered-without (suc fuel) suffix m names candidate h =
    rw
      (
        contains-without (candidate ++ show m) (candidate ++ show suffix) names
            (suffixes_differ candidate m suffix h),
        numbered-without fuel (suffix + 1) m names candidate (omega arith),
      )
      refl

-- What the search finds is not in use, and has no suffix below the one that it begins at.
abbrev IsNew : (suffix : ℕ) (names : List Text) (candidate found : Text) → Type 0
IsNew suffix names candidate found =
    (contains names found ≡ false) × ((m : ℕ) → m < suffix → (candidate ++ show m == found) ≡ false)

numbered-IsNew :
    (fuel suffix : ℕ) (names : List Text) (candidate : Text)
    → length names < fuel
    → IsNew suffix names candidate (numbered fuel suffix names candidate)
unfolding numbered
numbered-IsNew zero suffix names candidate h = absurd (omega arith)
numbered-IsNew (suc fuel) suffix names candidate h =
    elim (Bool-cases (contains names (candidate ++ show suffix))) [
      | inr free ↦ rw free (free, λ m lt. suffixes_differ candidate m suffix lt)
      | inl used ↦
          let tried = candidate ++ show suffix in
          let (unused, apart) =
            rw (numbered-without fuel (suffix + 1) suffix names candidate (omega arith)) at (
              numbered-IsNew fuel (suffix + 1) (without tried names) candidate
                (omega (arith, length-without tried names used))) in
          rw used (
            sym (
                  contains-without tried (numbered fuel (suffix + 1) names candidate) names
                    (apart suffix (omega arith)))
                ∙ unused,
            λ m lt. apart m (omega arith),
          )
    ]

qualified-unused :
    (ancestors names : List Text) (candidate : Text)
    → contains names (qualified ancestors names candidate) ≡ false
unfolding qualified
qualified-unused [] names candidate =
    (numbered-IsNew (suc (length names)) 2 names candidate (omega arith)).0
qualified-unused (a ∷ ancestors) names candidate =
    elim (Bool-cases (contains names (a ++ candidate))) [
      | inl used ↦ rw used (qualified-unused ancestors names candidate)
      | inr free ↦ rw free free
    ]

-- Whatever the names in use, the ancestors and the candidate are, the name of a new record is not
-- in use; the search among the numbered names ends.
pub fresh_name-unused :
    (reg : NameRegistry) (ancestors : List Text) (candidate : Text)
    → contains reg.names (fresh_name reg ancestors candidate) ≡ false
unfolding fresh_name
fresh_name-unused reg ancestors candidate = elim (Bool-cases (contains reg.names candidate)) [
  | inl used ↦ rw used (qualified-unused (reverse ancestors) reg.names candidate)
  | inr free ↦ rw free free
]
