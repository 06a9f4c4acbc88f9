-- ===== src/Core/Variable/Substitute.antt =====
-- What resolution returns: tokens are replaced from left to right, all else stays as it stands.
use rust_fox.Prelude.{
  ℕ, zero, suc, ◌+◌, ◌-◌, ◌<◌, ◌≡◌, refl, sym, ap, ◌∙◌, inl, inr, Bool, true, false, ◌&&◌, List, [],
  ◌∷◌, ◌++◌, Option, none, some, length, eqb, Bool-cases, Option-cases, arith, append_assoc,
  append-nil, list_eq, nat_eq, length-append, All,
}
use rust_fox.Prelude.Dict.{get}
use rust_fox.Prelude.Search.{clear, split_once-clear}
use rust_fox.Prelude.Text.{Text, codes, split_once, strip_prefix}
use rust_fox.Core.External.{Sources}
use rust_fox.Core.Variable.Total.{
  Resolver, find_close-split_once, find_close_sound, length-find_close,
}
use rust_fox.Core.Variable.{
  World, VariableMap, find_close, raw_token, lookup, substitute, scan, resolve_into,
  resolve_variables_with,
}

-- A text in pieces: a literal and the inside of a token behind it, then the literal at the end.
abbrev pub write : List (Text × Text) → Text → Text
write [] tail = tail
write ((text, inner) ∷ ps) tail = text ++ b'{' ∷ b'{' ∷ (inner ++ b'}' ∷ b'}' ∷ write ps tail)

-- No literal holds or touches an opening pair, and no token a closing one.
abbrev pub IsClear : List (Text × Text) → Type 0
IsClear ps = All (λ p. (clear b'{' p.0 ≡ true) × (clear b'}' p.1 ≡ true)) ps

abbrev pub prepend : Text → Option (Text × World) → Option (Text × World)
prepend pre none = none
prepend pre (some (s, w)) = some (pre ++ s, w)

-- A replaced token, with what follows it.
abbrev pub and_then :
    Option (Text × World) → (World → Option (Text × World)) → Option (Text × World)
and_then none k = none
and_then (some (value, w)) k = prepend value (k w)

prepend-append :
    (a b : Text) (o : Option (Text × World)) → prepend (a ++ b) o ≡ prepend a (prepend b o)
prepend-append a b none = refl
prepend-append a b (some (s, w)) = rw append_assoc refl

and_then-ext :
    (o : Option (Text × World)) (g h : World → Option (Text × World))
    → ((w : World) → g w ≡ prepend [] (h w))
    → and_then o g ≡ and_then o h
and_then-ext none g h e = refl
and_then-ext (some (value, w)) g h e =
    ap (prepend value) (e w) ∙ sym (prepend-append value [] (h w)) ∙ rw append-nil refl

module _ (src : Sources) (vars : VariableMap) (allow_builtin : Bool) (f : Resolver) where
  -- Each token is replaced in turn; `f` resolves a value one level further down.
  abbrev pub fill : List (Text × Text) → Text → World → Option (Text × World)
  fill [] tail w = some (tail, w)
  fill ((text, inner) ∷ ps) tail w =
      prepend text (and_then (substitute src vars allow_builtin f inner w) (λ w'. fill ps tail w'))

  scan-plain :
      (fuel : ℕ) (pending tail : Text) (w : World)
      → split_once (codes "{{") tail ≡ none
      → length tail < fuel
      → scan src vars allow_builtin f fuel pending tail w ≡ some (pending ++ tail, w)
  unfolding scan split_once strip_prefix
  scan-plain zero pending tail w t h = absurd (omega arith)
  scan-plain (suc fuel) pending [] w t h = rw append-nil refl
  scan-plain (suc fuel) pending (c ∷ []) w t h = refl
  scan-plain (suc fuel) pending (c ∷ d ∷ s) w t h =
      ground (
        arith,
        scan-plain fuel (pending ++ c ∷ []) (d ∷ s) w,
        append_assoc pending (c ∷ []) (d ∷ s),
      )

  scan-skip :
      (fuel : ℕ) (pending : Text) (c d : ℕ) (s : Text) (w : World)
      → (eqb c b'{' && eqb d b'{') ≡ false
      → scan src vars allow_builtin f (suc fuel) pending (c ∷ d ∷ s) w
        ≡ scan src vars allow_builtin f fuel (pending ++ c ∷ []) (d ∷ s) w
  unfolding scan
  scan-skip fuel pending c d s w h = rw h

  scan-clear :
      (text : Text) (fuel fuel' : ℕ) (pending rest : Text) (w : World)
      → clear b'{' text ≡ true
      → fuel ≡ length text + fuel'
      → scan src vars allow_builtin f fuel pending (text ++ b'{' ∷ b'{' ∷ rest) w
        ≡ scan src vars allow_builtin f fuel' (pending ++ text) (b'{' ∷ b'{' ∷ rest) w
  scan-clear [] fuel fuel' pending rest w c h =
      rw append-nil
        (ap (λ n. scan src vars allow_builtin f n pending (b'{' ∷ b'{' ∷ rest) w) (h ∙ omega arith))
  scan-clear (c ∷ s) zero fuel' pending rest w k h = absurd (omega arith)
  scan-clear (c ∷ []) (suc fuel) fuel' pending rest w k h =
      scan-skip fuel pending c b'{' (b'{' ∷ rest) w (ground arith)
      ∙ ap (λ n. scan src vars allow_builtin f n (pending ++ c ∷ []) (b'{' ∷ b'{' ∷ rest) w)
          (omega arith)
  scan-clear (c ∷ d ∷ s) (suc fuel) fuel' pending rest w k h =
      scan-skip fuel pending c d (s ++ b'{' ∷ b'{' ∷ rest) w (ground arith)
      ∙ scan-clear (d ∷ s) fuel fuel' (pending ++ c ∷ []) rest w (ground arith) (omega arith)
      ∙ rw append_assoc refl

  scan-token :
      (fuel : ℕ) (pending inner after : Text) (w : World)
      → clear b'}' inner ≡ true
      → scan src vars allow_builtin f
          (suc fuel)
          pending
          (b'{' ∷ b'{' ∷ (inner ++ b'}' ∷ b'}' ∷ after))
          w
        ≡ prepend pending (
            and_then
              (substitute src vars allow_builtin f inner w)
              (λ w'. scan src vars allow_builtin f fuel [] after w'))
  unfolding scan
  scan-token fuel pending inner after w c =
      rw (find_close-split_once, split_once-clear b'}' inner after c) (ground arith)

  scan-write :
      (ps : List (Text × Text)) (fuel : ℕ) (pending tail : Text) (w : World)
      → IsClear ps
      → split_once (codes "{{") tail ≡ none
      → length (write ps tail) < fuel
      → scan src vars allow_builtin f fuel pending (write ps tail) w
        ≡ prepend pending (fill ps tail w)
  scan-write [] fuel pending tail w c t h = scan-plain fuel pending tail w t h
  scan-write ((text, inner) ∷ ps) fuel pending tail w ((p, q), c) t h =
      let after = write ps tail in
      let left : ℕ = fuel - length text - 1 in
      let room : length text + (2 + (length inner + (2 + length after))) < fuel = omega (
        arith,
        length-append {0} text (b'{' ∷ b'{' ∷ (inner ++ b'}' ∷ b'}' ∷ after)),
        length-append {0} inner (b'}' ∷ b'}' ∷ after),
      ) in
      scan-clear text fuel (suc left) pending (inner ++ b'}' ∷ b'}' ∷ after) w p (omega arith)
      ∙ scan-token left (pending ++ text) inner after w q
      ∙ prepend-append pending text _
      ∙ ap (λ o. prepend pending (prepend text o))
          (and_then-ext (substitute src vars allow_builtin f inner w) _ (λ w'. fill ps tail w')
            (λ w'. scan-write ps left [] tail w' c t (omega arith)))

  -- If no token has a value, nothing is replaced.
  scan-identity :
      ((inner : Text) (w : World)
        → substitute src vars allow_builtin f inner w ≡ some (raw_token inner, w))
      → (fuel : ℕ) (pending rest : Text) (w : World) → length rest < fuel
      → scan src vars allow_builtin f fuel pending rest w ≡ some (pending ++ rest, w)
  unfolding scan
  scan-identity keeps zero pending rest w h = absurd (omega arith)
  scan-identity keeps (suc fuel) pending [] w h = rw append-nil refl
  scan-identity keeps (suc fuel) pending (c ∷ []) w h = refl
  scan-identity keeps (suc fuel) pending (c ∷ d ∷ s) w h =
      elim (Bool-cases (eqb c b'{' && eqb d b'{')) [
        | inr no_token ↦ rw no_token (
            scan-identity keeps fuel (pending ++ c ∷ []) (d ∷ s) w (omega arith)
            ∙ rw append_assoc refl)
        | inl token ↦ rw token (elim (Option-cases (find_close s)) [
          | inl unclosed ↦ rw (unclosed, scan) refl
          | inr ((inner, after), closed) ↦
              rw
                (
                  closed,
                  keeps inner w,
                  scan-identity keeps fuel [] after w
                      (omega (arith, length-find_close s inner after closed)),
                  scan,
                )
                (ground (
                  arith,
                  find_close_sound s inner after closed,
                  append_assoc inner (b'}' ∷ b'}' ∷ []) after,
                ))
        ])
      ]

module _ (src : Sources) (vars : VariableMap) (allow_builtin : Bool) where
  -- At every depth but 0, a text made of clear literals and clear tokens is resolved to the
  -- literals as they stand, with each token in its place replaced from left to right, where the
  -- value of a token is resolved one level further down.
  pub resolve_into-write :
      (depth : ℕ) (ps : List (Text × Text)) (tail : Text) (w : World)
      → IsClear ps
      → split_once (codes "{{") tail ≡ none
      → resolve_into src vars allow_builtin (suc depth) (write ps tail) w
        ≡ fill src vars allow_builtin (resolve_into src vars allow_builtin depth) ps tail w
  unfolding resolve_into
  resolve_into-write depth ps tail w c t =
      scan-write src vars allow_builtin (resolve_into src vars allow_builtin depth) ps
        (suc (length (write ps tail))) [] tail w c t (omega arith)
      ∙ prepend-nil
          (fill src vars allow_builtin (resolve_into src vars allow_builtin depth) ps tail w)
    where
      prepend-nil : (o : Option (Text × World)) → prepend [] o ≡ o
      prepend-nil none = refl
      prepend-nil (some r) = refl

-- With no variables and no built-in values every text, braces and all, comes back as it is, at
-- every depth, and nothing is drawn or counted.
pub resolve_variables_with-identity :
    (src : Sources) (input : Text) (depth : ℕ) (w : World)
    → resolve_variables_with src input [] depth false w ≡ some (input, w)
unfolding resolve_variables_with resolve_into
resolve_variables_with-identity src input zero w = refl
resolve_variables_with-identity src input (suc depth) w =
    scan-identity src [] false (resolve_into src [] false depth)
      (keeps (resolve_into src [] false depth)) (suc (length input)) [] input w (omega arith)
  where
    keeps :
        (f : Resolver) (inner : Text) (w' : World)
        → substitute src [] false f inner w' ≡ some (raw_token inner, w')
    keeps f inner w' = unfold substitute lookup get in ground arith
