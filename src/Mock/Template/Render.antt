-- ===== src/Mock/Template/Render.antt =====
-- What a template renders to: every key by its value, all else as it stands.
use rust_fox.Prelude.{
  ℕ, suc, zero, ◌<◌, ◌≡◌, refl, ◌∙◌, inl, inr, true, List, [], ◌∷◌, ◌++◌, none, some, length,
  append_assoc, Option-cases, All, arith, length-append,
}
use rust_fox.Prelude.Dict.{Dict}
use rust_fox.Prelude.Search.{clear, split_once-clear, length-split_once}
use rust_fox.Prelude.Text.{Text, codes, split_once}
use rust_fox.Core.External.{Sources, CaseMaps}
use rust_fox.Mock.Match.{HeaderMap}
use rust_fox.Mock.Template.{lookup, render_loop, render_template_with_query}

-- A template in pieces: a text and a key behind it, then the text after the last key.
abbrev pub Pieces : Type 0
Pieces = List (Text × Text)

abbrev pub write : Pieces → Text → Text
write [] tail = tail
write ((text, key) ∷ ps) tail = text ++ b'{' ∷ b'{' ∷ (key ++ b'}' ∷ b'}' ∷ write ps tail)

-- No text holds or touches an opening pair, and no key a closing one.
abbrev pub IsClear : Pieces → Type 0
IsClear ps = All (λ p. (clear b'{' p.0 ≡ true) × (clear b'}' p.1 ≡ true)) ps

module _ (src : Sources) (cases : CaseMaps) (params query : Dict Text Text)
    (headers : HeaderMap) where
  abbrev value : Text → ℕ → Text × ℕ
  value = lookup src cases params query headers

  -- The keys are looked up from left to right.
  abbrev pub fill : Pieces → Text → ℕ → Text × ℕ
  fill [] tail n = (tail, n)
  fill ((text, key) ∷ ps) tail n =
      let (v, n') = value key n in let (rest, n'') = fill ps tail n' in (text ++ (v ++ rest), n'')

  render_loop-write :
      (ps : Pieces) (fuel : ℕ) (out tail : Text) (n : ℕ)
      → IsClear ps
      → split_once (codes "{{") tail ≡ none
      → length (write ps tail) < fuel
      → render_loop src cases params query headers fuel out (write ps tail) n
        ≡ some (out ++ (fill ps tail n).0, (fill ps tail n).1)
  unfolding render_loop
  render_loop-write ps zero out tail n c t h = absurd (omega arith)
  render_loop-write [] (suc fuel) out tail n c t h = ground arith
  render_loop-write ((text, key) ∷ ps) (suc fuel) out tail n ((p, q), c) t h =
      rw (split_once-clear b'{' text _ p, split_once-clear b'}' key _ q, render_loop)
        (render_loop-write ps fuel _ tail _ c t (
            omega (
              arith,
              length-append {0} text (b'{' ∷ b'{' ∷ (key ++ b'}' ∷ b'}' ∷ write ps tail)),
              length-append {0} key (b'}' ∷ b'}' ∷ write ps tail),
            ))
          ∙ simp append_assoc)

  render_loop-total :
      (fuel : ℕ) (out rest : Text) (n : ℕ)
      → length rest < fuel
      → (r : Text × ℕ) × (render_loop src cases params query headers fuel out rest n ≡ some r)
  unfolding render_loop
  render_loop-total zero out rest n h = absurd (omega arith)
  render_loop-total (suc fuel) out rest n h = elim (Option-cases (split_once (codes "{{") rest)) [
    | inl e ↦ rw (e, render_loop) (_, refl)
    | inr ((text, after), e) ↦ elim (Option-cases (split_once (codes "}}") after)) [
      | inl f ↦ rw (e, f, render_loop) (_, refl)
      | inr ((key, rest'), f) ↦
          rw (e, f, render_loop)
            (render_loop-total fuel _ rest' _ (
              omega (
                arith,
                length-split_once (codes "{{") rest text after e,
                length-split_once (codes "}}") after key rest' f,
              )))
    ]
  ]

  -- Rendering ends on every template.
  pub render_template_with_query-total :
      (template : Text) (n : ℕ)
      → (r : Text × ℕ) × (render_template_with_query src cases params query headers template n
          ≡ some r)
  unfolding render_template_with_query
  render_template_with_query-total template n =
      render_loop-total (suc (length template)) [] template n (omega arith)

  -- On a template made of clear texts, clear keys and a tail with no opening pair, rendering
  -- returns the texts as they stand with the value of each key in its place, the keys being
  -- looked up from left to right.
  pub render_template_with_query-write :
      (ps : Pieces) (tail : Text) (n : ℕ)
      → IsClear ps
      → split_once (codes "{{") tail ≡ none
      → render_template_with_query src cases params query headers (write ps tail) n
        ≡ some (fill ps tail n)
  unfolding render_template_with_query
  render_template_with_query-write ps tail n c t =
      render_loop-write ps (suc (length (write ps tail))) [] tail n c t (omega arith)
