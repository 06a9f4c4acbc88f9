-- ===== src/Core/Variable/Total.antt =====
-- Resolution ends on every text, at every depth, and finds the tokens that stand in the text.
use rust_fox.Prelude.{
  ℕ, zero, suc, ◌+◌, ◌≤◌, ◌<◌, ◌≡◌, refl, inl, inr, Bool, ◌&&◌, [], ◌∷◌, ◌++◌, Option, some, length,
  eqb, Bool-cases, Option-cases, arith, list_eq, nat_eq,
}
use rust_fox.Prelude.Search.{split_once_sound, length-split_once}
use rust_fox.Prelude.Text.{Text, codes, split_once, strip_prefix, is_empty, trim}
use rust_fox.Core.External.{Sources}
use rust_fox.Core.Variable.{World, VariableMap, find_close, lookup, substitute, scan, resolve_into}

-- The byte scan for `}}` finds the first occurrence.
pub find_close-split_once : (s : Text) → find_close s ≡ split_once (codes "}}") s
unfolding find_close split_once strip_prefix
find_close-split_once [] = refl
find_close-split_once (a ∷ []) = ground arith
find_close-split_once (a ∷ b ∷ s) = ground (arith, find_close-split_once (b ∷ s))

pub find_close_sound :
    (s inner after : Text) → find_close s ≡ some (inner, after) → s ≡ inner ++ (b'}' ∷ b'}' ∷ after)
find_close_sound s inner after h =
    split_once_sound (codes "}}") s inner after (rw find_close-split_once at h)

pub length-find_close :
    (s inner after : Text) → find_close s ≡ some (inner, after) → length after + 2 ≤ length s
length-find_close s inner after h =
    omega (arith, length-split_once (codes "}}") s inner after (rw find_close-split_once at h))

abbrev pub Resolver : Type 0
Resolver = Text → World → Option (Text × World)

abbrev pub Ends : Resolver → Type 0
Ends f = (s : Text) (w : World) → (r : Text × World) × (f s w ≡ some r)

module _ (src : Sources) (vars : VariableMap) (allow_builtin : Bool) where
  substitute-Ends : (f : Resolver) → Ends f → Ends (substitute src vars allow_builtin f)
  unfolding substitute
  substitute-Ends f ends inner w = elim (Bool-cases (is_empty (trim inner))) [
    | inl blank ↦ rw (blank, substitute) (_, refl)
    | inr named ↦ elim (Option-cases (lookup src vars allow_builtin (trim inner) w).0) [
      | inl unknown ↦ rw (named, unknown, substitute) (_, refl)
      | inr (value, known) ↦ rw (named, known, substitute) (ends value _)
    ]
  ]

  scan-Ends :
      (f : Resolver)
      → Ends f
      → (fuel : ℕ) (pending rest : Text) (w : World) → length rest < fuel
      → (r : Text × World) × (scan src vars allow_builtin f fuel pending rest w ≡ some r)
  unfolding scan
  scan-Ends f ends zero pending rest w h = absurd (omega arith)
  scan-Ends f ends (suc fuel) pending [] w h = (_, refl)
  scan-Ends f ends (suc fuel) pending (c ∷ []) w h = (_, refl)
  scan-Ends f ends (suc fuel) pending (c ∷ d ∷ s) w h =
      elim (Bool-cases (eqb c b'{' && eqb d b'{')) [
        | inr no_token ↦
            rw no_token (scan-Ends f ends fuel (pending ++ c ∷ []) (d ∷ s) w (omega arith))
        | inl token ↦ rw token (elim (Option-cases (find_close s)) [
          | inl unclosed ↦ rw (unclosed, scan) (_, refl)
          | inr ((inner, after), closed) ↦
              let ((value, w'), v) = substitute-Ends f ends inner w in
              let ((later, w''), l) =
                scan-Ends f ends fuel [] after w'
                  (omega (arith, length-find_close s inner after closed)) in
              ((pending ++ (value ++ later), w''), rw (closed, v, l, scan) refl)
        ])
      ]

  -- Resolution ends on every text, whatever the variables are, cyclic ones included, and at every
  -- depth.
  pub resolve_into-Ends : (depth : ℕ) → Ends (resolve_into src vars allow_builtin depth)
  unfolding resolve_into
  resolve_into-Ends zero s w = (_, refl)
  resolve_into-Ends (suc depth) s w =
      scan-Ends (resolve_into src vars allow_builtin depth) (resolve_into-Ends depth)
        (suc (length s)) [] s w (omega arith)
