-- ===== src/Codegen/Naming.antt =====
-- fox-codegen/src/json_types/naming.rs: words of an identifier, and names in the style of a language.
-- The Unicode properties of characters are a parameter.
pub mod Words
pub mod Idents
use rust_fox.Prelude.{
  ℕ, Bool, true, false, not, ◌&&◌, ◌||◌, List, [], ◌∷◌, ◌++◌, Option, none, some, map, any, eqb,
  if◌then◌else◌, ◌==◌, list_eq, nat_eq,
}
use rust_fox.Prelude.Text.{Text, codes, is_empty, join, in_range}

-- The methods of `char`.
pub record Chars : Type 0 where
  pub is_lowercase : ℕ → Bool
  pub is_uppercase : ℕ → Bool
  pub is_alphabetic : ℕ → Bool
  pub is_numeric : ℕ → Bool
  pub to_lowercase : Text → Text
  pub to_uppercase : ℕ → Text

-- `'_' | '-' | '.' | ' ' | '/' | '\\' | ':'`
unfoldable pub is_separator : ℕ → Bool
is_separator c =
    eqb c b'_' || eqb c b'-' || eqb c b'.' || eqb c b' ' || eqb c b'/' || eqb c b'\\' || eqb c b':'

-- The word that is closed, if it is not empty.
abbrev pub flush : Text → List Text → List Text
flush [] words = words
flush (c ∷ s) words = (c ∷ s) ∷ words

abbrev pub first_char : Text → Option ℕ
first_char [] = none
first_char (c ∷ s) = some c

abbrev pub or_whole : Text → List Text → List Text
or_whole input [] = input ∷ []
or_whole input (w ∷ ws) = w ∷ ws

abbrev pub concat : List Text → Text
concat [] = []
concat (w ∷ ws) = w ++ concat ws

module _ (chars : Chars) where
  abbrev pub followed_by_lowercase : Text → Bool
  followed_by_lowercase rest = elim (first_char rest) [
    | none ↦ false
    | some n ↦ chars.is_lowercase n
  ]

  -- Whether a new word begins at `c`.
  unfoldable pub boundary : (prev : Option ℕ) (c : ℕ) (rest : Text) → Bool
  boundary none c rest = false
  boundary (some p) c rest =
      (chars.is_lowercase p && chars.is_uppercase c)
      || (chars.is_uppercase p && (chars.is_uppercase c && followed_by_lowercase rest))
      || (chars.is_alphabetic p && chars.is_numeric c)

  -- The loop, with the character before, the word that is open and the rest of the input.
  unfoldable pub words_from : (prev : Option ℕ) (current : Text) → Text → List Text
  unfolding is_separator boundary
  words_from prev current [] = flush current []
  words_from prev current (c ∷ s) =
      let closed = flush current (words_from (some c) [] s) in
      let opened = flush current (words_from (some c) (c ∷ []) s) in
      let grown = words_from (some c) (current ++ c ∷ []) s in
      if is_separator c then closed else if boundary prev c s then opened else grown

  unfoldable pub split_words : Text → List Text
  unfolding words_from
  split_words input = or_whole input (words_from none [] input)

  unfoldable pub capitalize : Text → Text
  capitalize [] = []
  capitalize (c ∷ s) = chars.to_uppercase c ++ s

  unfoldable pub to_snake_case : Text → Text
  unfolding split_words join
  to_snake_case input = join (codes "_") (map chars.to_lowercase (split_words input))

  abbrev camel : List Text → Text
  camel [] = []
  camel (w ∷ ws) = chars.to_lowercase w ++ concat (map capitalize ws)

  unfoldable pub to_camel_case : Text → Text
  unfolding split_words capitalize
  to_camel_case input = camel (split_words input)

  unfoldable pub to_pascal_case : Text → Text
  unfolding split_words capitalize
  to_pascal_case input = concat (map capitalize (split_words input))

unfoldable pub guard_digit : (ident pre : Text) → Text
guard_digit [] pre = pre ++ codes "Empty"
guard_digit (c ∷ s) pre = if in_range b'0' b'9' c then pre ++ c ∷ s else c ∷ s

abbrev pub rust_keywords : List Text
rust_keywords =
    codes "as"
    ∷ codes "async"
    ∷ codes "await"
    ∷ codes "break"
    ∷ codes "const"
    ∷ codes "continue"
    ∷ codes "crate"
    ∷ codes "dyn"
    ∷ codes "else"
    ∷ codes "enum"
    ∷ codes "extern"
    ∷ codes "false"
    ∷ codes "fn"
    ∷ codes "for"
    ∷ codes "gen"
    ∷ codes "if"
    ∷ codes "impl"
    ∷ codes "in"
    ∷ codes "let"
    ∷ codes "loop"
    ∷ codes "match"
    ∷ codes "mod"
    ∷ codes "move"
    ∷ codes "mut"
    ∷ codes "pub"
    ∷ codes "ref"
    ∷ codes "return"
    ∷ codes "self"
    ∷ codes "Self"
    ∷ codes "static"
    ∷ codes "struct"
    ∷ codes "super"
    ∷ codes "trait"
    ∷ codes "true"
    ∷ codes "try"
    ∷ codes "type"
    ∷ codes "unsafe"
    ∷ codes "use"
    ∷ codes "where"
    ∷ codes "while"
    ∷ []

unfoldable pub rust_field_ident : (snake : Text) → Text
unfolding guard_digit
rust_field_ident snake =
    let guarded = guard_digit snake (codes "_") in
    if any (λ k. k == guarded) rust_keywords then codes "r#" ++ guarded else guarded

abbrev pub java_keywords : List Text
java_keywords =
    codes "abstract"
    ∷ codes "assert"
    ∷ codes "boolean"
    ∷ codes "break"
    ∷ codes "byte"
    ∷ codes "case"
    ∷ codes "catch"
    ∷ codes "char"
    ∷ codes "class"
    ∷ codes "const"
    ∷ codes "continue"
    ∷ codes "default"
    ∷ codes "do"
    ∷ codes "double"
    ∷ codes "else"
    ∷ codes "enum"
    ∷ codes "extends"
    ∷ codes "final"
    ∷ codes "finally"
    ∷ codes "float"
    ∷ codes "for"
    ∷ codes "goto"
    ∷ codes "if"
    ∷ codes "implements"
    ∷ codes "import"
    ∷ codes "instanceof"
    ∷ codes "int"
    ∷ codes "interface"
    ∷ codes "long"
    ∷ codes "native"
    ∷ codes "new"
    ∷ codes "null"
    ∷ codes "package"
    ∷ codes "permits"
    ∷ codes "private"
    ∷ codes "protected"
    ∷ codes "public"
    ∷ codes "record"
    ∷ codes "return"
    ∷ codes "sealed"
    ∷ codes "short"
    ∷ codes "static"
    ∷ codes "strictfp"
    ∷ codes "super"
    ∷ codes "switch"
    ∷ codes "synchronized"
    ∷ codes "this"
    ∷ codes "throw"
    ∷ codes "throws"
    ∷ codes "transient"
    ∷ codes "true"
    ∷ codes "try"
    ∷ codes "var"
    ∷ codes "void"
    ∷ codes "volatile"
    ∷ codes "while"
    ∷ codes "yield"
    ∷ []

unfoldable pub java_field_ident : (camel : Text) → Text
unfolding guard_digit
java_field_ident camel =
    let guarded = guard_digit camel (codes "_") in
    if any (λ k. k == guarded) java_keywords then codes "_" ++ guarded else guarded

unfoldable pub go_field_ident : (pascal : Text) → Text
unfolding guard_digit
go_field_ident pascal = guard_digit pascal (codes "N")
