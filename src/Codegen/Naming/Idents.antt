-- ===== src/Codegen/Naming/Idents.antt =====
-- Field names are no keywords and do not begin with a digit.
use rust_fox.Prelude.{
  ◌≡◌, refl, inl, inr, Bool, true, false, List, [], ◌∷◌, any, ◌==◌, Bool-cases, arith, list_eq,
  nat_eq,
}
use rust_fox.Prelude.Text.{Text, codes, in_range}
use rust_fox.Codegen.Naming.{
  guard_digit, rust_keywords, rust_field_ident, java_keywords, java_field_ident,
}

abbrev pub begins_with_digit : Text → Bool
begins_with_digit [] = true
begins_with_digit (c ∷ s) = in_range b'0' b'9' c

-- A name that begins with a digit or is empty counts as unusable, and so does a keyword.
pub record IsUsable (keywords : List Text) (ident : Text) : Type 0 where
  pub no_digit : begins_with_digit ident ≡ false
  pub no_keyword : any (λ k. k == ident) keywords ≡ false

guard_digit-no_digit : (s : Text) → begins_with_digit (guard_digit s (codes "_")) ≡ false
unfolding guard_digit
guard_digit-no_digit [] = refl
guard_digit-no_digit (c ∷ s) = ground arith

raw_keyword : (s : Text) → any (λ k. k == b'r' ∷ b'#' ∷ s) rust_keywords ≡ false
raw_keyword s = refl

underscored_keyword : (s : Text) → any (λ k. k == b'_' ∷ s) java_keywords ≡ false
underscored_keyword s = refl

-- The Rust and the Java name of a field are not empty, do not begin with a digit, and are no
-- keywords of the language's list.
pub field_ident-IsUsable :
    (name : Text)
    → IsUsable rust_keywords (rust_field_ident name)
      × IsUsable java_keywords (java_field_ident name)
unfolding rust_field_ident java_field_ident
field_ident-IsUsable name = (rust_case, java_case)
  where
    rust_case : IsUsable rust_keywords (rust_field_ident name)
    rust_case = elim (Bool-cases (any (λ k. k == guard_digit name (codes "_")) rust_keywords)) [
      | inl word ↦
          rw word
            (record { no_digit = refl; no_keyword = raw_keyword (guard_digit name (codes "_")) })
      | inr free ↦ rw free (record { no_digit = guard_digit-no_digit name; no_keyword = free })
    ]

    java_case : IsUsable java_keywords (java_field_ident name)
    java_case = elim (Bool-cases (any (λ k. k == guard_digit name (codes "_")) java_keywords)) [
      | inl word ↦ rw word (record {
        no_digit = refl;
        no_keyword = underscored_keyword (guard_digit name (codes "_"));
      })
      | inr free ↦ rw free (record { no_digit = guard_digit-no_digit name; no_keyword = free })
    ]
