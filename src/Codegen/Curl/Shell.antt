-- ===== src/Codegen/Curl/Shell.antt =====
-- How a POSIX shell splits a line into words, as far as the commands need it: blanks, single quotes
-- and backslashes.
use rust_fox.Prelude.{
  ℕ, ◌≡◌, sym, ap, ◌∙◌, Bool, ◌||◌, List, [], ◌∷◌, ◌++◌, Option, none, some, eqb, if◌then◌else◌,
  eqb_iff, Bool-cases, inl, inr, append_assoc, append-nil,
}
use rust_fox.Prelude.Text.{Text}
use rust_fox.Codegen.Escape.{sq}

-- Where the reader is: between words, in one, behind a single quote, and behind a backslash at the
-- beginning of a word or in one.
pub data Place : Type 0 where
  between in_word quoted escaped_between escaped_word : Place

-- What a character does: it goes to a place, alone or as a part of the word, or ends the word; or
-- it is not read.
pub data Move : Type 0 where
  go add : Place → Move
  finish refuse : Move

abbrev pub is_blank : ℕ → Bool
is_blank c = eqb c b' ' || eqb c 9 || eqb c 10

abbrev pub move : Place → ℕ → Move
move between c =
    if is_blank c
    then go between
    else if eqb c b'\''
    then go quoted
    else if eqb c b'\\'
    then go escaped_between
    else if eqb c b'"' || eqb c b'#'
    then refuse
    else add in_word
move in_word c =
    if is_blank c
    then finish
    else if eqb c b'\''
    then go quoted
    else if eqb c b'\\'
    then go escaped_word
    else if eqb c b'"'
    then refuse
    else add in_word
move quoted c = if eqb c b'\'' then go in_word else add quoted
move escaped_between c = if eqb c 10 then go between else add in_word
move escaped_word c = if eqb c 10 then go in_word else add in_word

abbrev pub push_word : Text → Option (List Text) → Option (List Text)
push_word w none = none
push_word w (some ws) = some (w ∷ ws)

-- The words of a line, with the part of a word that has been read.
unfoldable pub shell_words : Place → (word : Text) → Text → Option (List Text)
shell_words between word [] = some []
shell_words in_word word [] = some (word ∷ [])
shell_words place word [] = none
shell_words place word (c ∷ s) = elim (move place c) [
  | go next ↦ shell_words next word s
  | add next ↦ shell_words next (word ++ c ∷ []) s
  | finish ↦ push_word word (shell_words between [] s)
  | refuse ↦ none
]

-- The words that the shell makes of a line.
abbrev pub split : Text → Option (List Text)
split = shell_words between []

-- An escaped text is read as the text, and its closing quote ends it.
pub shell_words-sq :
    (s word rest : Text)
    → shell_words quoted word (sq s ++ b'\'' ∷ rest) ≡ shell_words in_word (word ++ s) rest
unfolding shell_words sq
shell_words-sq [] word rest = ap (λ w. shell_words in_word w rest) (sym (append-nil word))
shell_words-sq (c ∷ s) word rest = elim (Bool-cases (eqb c b'\'')) [
  | inl quote ↦ rw quote (
      shell_words-sq s (word ++ b'\'' ∷ []) rest
      ∙ ap (λ w. shell_words in_word w rest)
          (append_assoc word (b'\'' ∷ []) s
            ∙ ap (λ d. word ++ d ∷ s) (sym ((eqb_iff c b'\'').0 quote))))
  | inr plain ↦ rw plain (
      rw (plain, shell_words)
        (shell_words-sq s (word ++ c ∷ []) rest
          ∙ ap (λ w. shell_words in_word w rest) (append_assoc word (c ∷ []) s)))
]
