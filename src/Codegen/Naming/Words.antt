-- ===== src/Codegen/Naming/Words.antt =====
-- The words of an identifier are the identifier without its separators.
use mathlib.Core.Path.{subst}
use rust_fox.Prelude.{
  ◌⊎◌, ℕ, ◌≡◌, refl, sym, ap, ◌∙◌, inl, inr, false, not, List, [], ◌∷◌, ◌++◌, Option, none, some,
  keep, All, Bool-cases, append_assoc, list_eq, nat_eq,
}
use rust_fox.Prelude.Text.{Text, is_empty}
use rust_fox.Codegen.Naming.{
  Chars, is_separator, boundary, words_from, split_words, flush, concat, or_whole,
}

concat-flush : (current : Text) (ws : List Text) → concat (flush current ws) ≡ current ++ concat ws
concat-flush [] ws = refl
concat-flush (c ∷ s) ws = refl

flush-filled :
    (current : Text) (ws : List Text)
    → All (λ w. is_empty w ≡ false) ws
    → All (λ w. is_empty w ≡ false) (flush current ws)
flush-filled [] ws h = h
flush-filled (c ∷ s) ws h = (refl, h)

abbrev pub letters : Text → Text
letters = keep (λ c. not (is_separator c))

module _ (chars : Chars) where
  concat-words_from :
      (s : Text) (prev : Option ℕ) (current : Text)
      → concat (words_from chars prev current s) ≡ current ++ letters s
  unfolding words_from
  concat-words_from [] prev current = concat-flush current []
  concat-words_from (c ∷ s) prev current = elim (Bool-cases (is_separator c)) [
    | inl sep ↦
        rw sep (concat-flush current _ ∙ ap (◌++◌ current) (concat-words_from s (some c) []))
    | inr letter ↦ elim (Bool-cases (boundary chars prev c s)) [
      | inl cut ↦
          rw (letter, cut)
            (concat-flush current _ ∙ ap (◌++◌ current) (concat-words_from s (some c) (c ∷ [])))
      | inr on ↦
          rw (letter, on)
            (concat-words_from s (some c) (current ++ c ∷ [])
              ∙ append_assoc current (c ∷ []) (letters s))
    ]
  ]

  filled-words_from :
      (s : Text) (prev : Option ℕ) (current : Text)
      → All (λ w. is_empty w ≡ false) (words_from chars prev current s)
  unfolding words_from
  filled-words_from [] prev current = flush-filled current [] tt
  filled-words_from (c ∷ s) prev current = elim (Bool-cases (is_separator c)) [
    | inl sep ↦ rw sep (flush-filled current _ (filled-words_from s (some c) []))
    | inr letter ↦ elim (Bool-cases (boundary chars prev c s)) [
      | inl cut ↦ rw (letter, cut) (flush-filled current _ (filled-words_from s (some c) (c ∷ [])))
      | inr on ↦ rw (letter, on) (filled-words_from s (some c) (current ++ c ∷ []))
    ]
  ]

  whole-words_from :
      (input : Text) (ws : List Text)
      → words_from chars none [] input ≡ ws
      → ((concat (or_whole input ws) ≡ letters input)
          × All (λ w. is_empty w ≡ false) (or_whole input ws))
        ⊎ ((letters input ≡ []) × (or_whole input ws ≡ input ∷ []))
  whole-words_from input [] e = inr (sym (concat-words_from input none []) ∙ ap concat e, refl)
  whole-words_from input (w ∷ ws) e = inl (
    ap concat (sym e) ∙ concat-words_from input none [],
    subst (All (λ v. is_empty v ≡ false)) e (filled-words_from input none []),
  )

  -- The words of an identifier are not empty, and joined give it back without its separators; an
  -- identifier of separators only is its one word.
  pub split_words-letters :
      (input : Text)
      → ((concat (split_words chars input) ≡ letters input)
          × All (λ w. is_empty w ≡ false) (split_words chars input))
        ⊎ ((letters input ≡ []) × (split_words chars input ≡ input ∷ []))
  unfolding split_words
  split_words-letters input = whole-words_from input (words_from chars none [] input) refl
