-- ===== src/Mock/Template.antt =====
-- `render_template`: `{{key}}` in a response body is replaced by a value of the request, or by a
-- made-up one. The counter is the number of values drawn from outside so far.
pub mod Render
use rust_fox.Prelude.{
  ℕ, suc, zero, ◌+◌, List, [], ◌∷◌, ◌++◌, Option, none, some, length, get_or, if◌then◌else◌, ◌==◌,
  list_eq, nat_eq,
}
use rust_fox.Prelude.Dict.{Dict, get}
use rust_fox.Prelude.Text.{Text, codes, strip_prefix, split_once, show}
use rust_fox.Core.External.{Sources, CaseMaps}
use rust_fox.Mock.Match.{HeaderMap, parse_query}

abbrev words : List Text
words =
    codes "alpha"
    ∷ codes "beta"
    ∷ codes "gamma"
    ∷ codes "delta"
    ∷ codes "nova"
    ∷ codes "fox"
    ∷ codes "mock"
    ∷ codes "demo"
    ∷ []

-- `cloned().unwrap_or_default()`
abbrev pub or_default : Option Text → Text
or_default none = []
or_default (some v) = v

module _ (src : Sources) (cases : CaseMaps) where
  -- A draw in `0..words.len()` is in range, so the default of `get_or` is never read.
  unfoldable pub simple_word : ℕ → Text × ℕ
  simple_word n = (get_or words (src.random n (length words)) [], n + 1)

  unfoldable pub mock_value : Text → ℕ → Text × ℕ
  unfolding simple_word
  mock_value kind n =
      if kind == codes "uuid"
      then (src.new_v4 n, n + 1)
      else if kind == codes "email"
      then (cases.to_lowercase (simple_word n).0 ++ codes "@example.com", (simple_word n).1)
      else if kind == codes "name"
      then simple_word n
      else if kind == codes "word"
      then simple_word n
      else if kind == codes "timestamp"
      then (src.timestamp n, n + 1)
      else if kind == codes "int"
      then (show (src.random n 1000), n + 1)
      else ([], n)

  module _ (params query : Dict Text Text) (headers : HeaderMap) where
    unfoldable pub lookup : Text → ℕ → Text × ℕ
    unfolding strip_prefix get mock_value
    lookup key n = elim (strip_prefix (codes "params.") key) [
      | some name ↦ (or_default (get name params), n)
      | none ↦ elim (strip_prefix (codes "query.") key) [
        | some name ↦ (or_default (get name query), n)
        | none ↦ elim (strip_prefix (codes "headers.") key) [
          | some name ↦ (or_default (headers name), n)
          | none ↦ elim (strip_prefix (codes "mock.") key) [
            | some kind ↦ mock_value kind n
            | none ↦ ([], n)
          ]
        ]
      ]
    ]

    -- The loop; a round drops at least the four braces, and `none` means that the fuel ran out.
    unfoldable pub render_loop : ℕ → (out rest : Text) → ℕ → Option (Text × ℕ)
    unfolding split_once lookup
    render_loop zero out rest n = none
    render_loop (suc fuel) out rest n = elim (split_once (codes "{{") rest) [
      | none ↦ some (out ++ rest, n)
      | some (text, after) ↦ elim (split_once (codes "}}") after) [
        | none ↦ some ((out ++ text) ++ (codes "{{" ++ after), n)
        | some (key, rest') ↦
            render_loop fuel ((out ++ text) ++ (lookup key n).0) rest' (lookup key n).1
      ]
    ]

    unfoldable pub render_template_with_query : Text → ℕ → Option (Text × ℕ)
    unfolding render_loop
    render_template_with_query template n = render_loop (suc (length template)) [] template n

  unfoldable pub render_template : Text → Dict Text Text → Text → HeaderMap → ℕ → Option (Text × ℕ)
  unfolding render_template_with_query parse_query
  render_template template params query headers n =
      render_template_with_query params (parse_query query) headers template n
