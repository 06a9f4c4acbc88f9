-- ===== src/Http/Signature/Rendered.antt =====
-- A template is rendered in one pass from left to right.
use rust_fox.Prelude.{
  ℕ, zero, suc, ◌-◌, ◌<◌, ◌≡◌, refl, sym, ap, ◌∙◌, false, [], ◌∷◌, ◌++◌, Option, none, some, inl,
  inr, length, Option-cases, arith,
}
use rust_fox.Prelude.Int.{ℤ}
use rust_fox.Prelude.Search.{strip_prefix_sound}
use rust_fox.Prelude.Text.{Text, tail_of, contains, strip_prefix, split_once, before}
use rust_fox.Http.Signature.{
  Placeholder, key_placeholder, secret_placeholder, timestamp_placeholder, pattern_of, Found,
  closer, nearest, value_of, render_rounds, render_payload,
}

abbrev after : Placeholder → Text → Option Text
unfolding strip_prefix pattern_of
after p s = strip_prefix (pattern_of p) s

abbrev or_front :
    Option (Placeholder × Text) → Placeholder → Option Text → Option (Placeholder × Text)
or_front (some f) p o = some f
or_front none p none = none
or_front none p (some r) = some (p, r)

-- The placeholder that the text begins with, and what follows it.
unfoldable pub front : Text → Option (Placeholder × Text)
unfolding strip_prefix pattern_of
front s =
    or_front
      (or_front (or_front none key_placeholder (after key_placeholder s)) secret_placeholder
        (after secret_placeholder s))
      timestamp_placeholder (after timestamp_placeholder s)

abbrev shift : ℕ → Option Found → Option Found
shift c none = none
shift c (some (p, a, b)) = some (p, c ∷ a, b)

closer-shift :
    (c : ℕ) (p : Placeholder) (o : Option (Text × Text)) (n : Option Found)
    → closer p (before c o) (shift c n) ≡ shift c (closer p o n)
closer-shift c p none n = refl
closer-shift c p (some (a, b)) none = refl
closer-shift c p (some (a, b)) (some (q, a', b')) = ground arith

-- Nothing is closer than the front.
closer-front :
    (p q : Placeholder) (o : Option (Text × Text)) (r : Text)
    → closer p o (some (q, [], r)) ≡ some (q, [], r)
closer-front p q none r = refl
closer-front p q (some (a, b)) r = ground arith

front-closer :
    (c : ℕ) (p : Placeholder) (n : Option Found) (r : Text)
    → closer p (some ([], r)) (shift c n) ≡ some (p, [], r)
front-closer c p none r = refl
front-closer c p (some (q, a, b)) r = ground arith

-- The first occurrence, by whether the text begins with the pattern.
abbrev first_or : Option Text → ℕ → Option (Text × Text) → Option (Text × Text)
first_or none c later = before c later
first_or (some r) c later = some ([], r)

abbrev placed : Option (Placeholder × Text) → ℕ → Option Found → Option Found
placed none c later = shift c later
placed (some (p, r)) c later = some (p, [], r)

closer-or_front :
    (c : ℕ) (p : Placeholder) (f : Option (Placeholder × Text)) (o : Option Text)
    (later : Option (Text × Text)) (n : Option Found)
    → closer p (first_or o c later) (placed f c n) ≡ placed (or_front f p o) c (closer p later n)
closer-or_front c p none none later n = closer-shift c p later n
closer-or_front c p none (some r) later n = front-closer c p n r
closer-or_front c p (some (q, r)) o later n = closer-front p q (first_or o c later) r

split_once-cons :
    (pat : Text) (c : ℕ) (s : Text)
    → split_once pat (c ∷ s) ≡ first_or (strip_prefix pat (c ∷ s)) c (split_once pat s)
unfolding split_once
split_once-cons pat c s = elim (Option-cases (strip_prefix pat (c ∷ s))) [
  | inl e ↦ ground arith
  | inr (r, e) ↦ ground arith
]

-- One more placeholder of the list is looked at.
closer-cons :
    (c : ℕ) (s : Text) (p : Placeholder) (f : Option (Placeholder × Text)) (n n' : Option Found)
    → n' ≡ placed f c n
    → closer p (split_once (pattern_of p) (c ∷ s)) n'
      ≡ placed (or_front f p (after p (c ∷ s))) c (closer p (split_once (pattern_of p) s) n)
unfolding strip_prefix after
closer-cons c s p f n n' e =
    rw (e, split_once-cons (pattern_of p) c s)
      (closer-or_front c p f (after p (c ∷ s)) (split_once (pattern_of p) s) n)

nearest-cons : (c : ℕ) (s : Text) → nearest (c ∷ s) ≡ placed (front (c ∷ s)) c (nearest s)
unfolding nearest front
nearest-cons c s =
    closer-cons c s timestamp_placeholder _ _ _ (
      closer-cons c s secret_placeholder _ _ _
        (closer-cons c s key_placeholder none none none refl))

nearest-nil : nearest [] ≡ none
unfolding nearest split_once strip_prefix pattern_of
nearest-nil = refl

-- What follows the placeholder at the front is shorter by the placeholder.
front_sound : (s r : Text) (p : Placeholder) → front s ≡ some (p, r) → s ≡ pattern_of p ++ r
unfolding front
front_sound s r p e = elim (Option-cases (after key_placeholder s)) [
  | inr (r1, e1) ↦ ground (arith, strip_prefix_sound (pattern_of key_placeholder) s r1 e1)
  | inl e1 ↦ elim (Option-cases (after secret_placeholder s)) [
    | inr (r2, e2) ↦ ground (arith, strip_prefix_sound (pattern_of secret_placeholder) s r2 e2)
    | inl e2 ↦ elim (Option-cases (after timestamp_placeholder s)) [
      | inr (r3, e3) ↦ ground (arith, strip_prefix_sound (pattern_of timestamp_placeholder) s r3 e3)
      | inl e3 ↦ ground arith
    ]
  ]
]

module _ (key secret : Text) (timestamp : ℤ) where
  -- Each placeholder that is met from left to right is replaced by its value, and the values are not
  -- looked at; `skip` characters of a replaced placeholder are passed over.
  unfoldable pub replaced : (skip : ℕ) → Text → Text
  unfolding front value_of
  replaced skip [] = []
  replaced (suc skip) (c ∷ s) = replaced skip s
  replaced zero (c ∷ s) = elim (front (c ∷ s)) [
    | none ↦ c ∷ replaced zero s
    | some (p, r) ↦ value_of key secret timestamp p ++ replaced (length (pattern_of p) - 1) s
  ]

  replaced-append : (p r : Text) → replaced (length p) (p ++ r) ≡ replaced 0 r
  unfolding replaced
  replaced-append [] r = refl
  replaced-append (c ∷ p) r = replaced-append p r

  -- The placeholder at the front is passed over.
  replaced-front :
      (c : ℕ) (s r : Text) (p : Placeholder)
      → front (c ∷ s) ≡ some (p, r)
      → replaced (length (pattern_of p) - 1) s ≡ replaced 0 r
  unfolding pattern_of
  replaced-front c s r key_placeholder e =
      ap (replaced 7) (ap tail_of (front_sound (c ∷ s) r key_placeholder e))
      ∙ replaced-append (tail_of (pattern_of key_placeholder)) r
  replaced-front c s r secret_placeholder e =
      ap (replaced 10) (ap tail_of (front_sound (c ∷ s) r secret_placeholder e))
      ∙ replaced-append (tail_of (pattern_of secret_placeholder)) r
  replaced-front c s r timestamp_placeholder e =
      ap (replaced 13) (ap tail_of (front_sound (c ∷ s) r timestamp_placeholder e))
      ∙ replaced-append (tail_of (pattern_of timestamp_placeholder)) r

  length-front :
      (c : ℕ) (s r : Text) (p : Placeholder)
      → front (c ∷ s) ≡ some (p, r)
      → length r < length (c ∷ s)
  unfolding pattern_of
  length-front c s r key_placeholder e =
      omega (arith, ap length (front_sound (c ∷ s) r key_placeholder e))
  length-front c s r secret_placeholder e =
      omega (arith, ap length (front_sound (c ∷ s) r secret_placeholder e))
  length-front c s r timestamp_placeholder e =
      omega (arith, ap length (front_sound (c ∷ s) r timestamp_placeholder e))

  -- A text without a placeholder at its front keeps its first character.
  render_rounds-cons :
      (n c : ℕ) (s : Text)
      → nearest (c ∷ s) ≡ shift c (nearest s)
      → render_rounds key secret timestamp (suc n) (c ∷ s)
        ≡ c ∷ render_rounds key secret timestamp (suc n) s
  unfolding render_rounds
  render_rounds-cons n c s e = elim (Option-cases (nearest s)) [
    | inl f ↦ ground arith
    | inr ((p, a, b), f) ↦ ground arith
  ]

  render_rounds-absent :
      (n : ℕ) (s : Text) → nearest s ≡ none → render_rounds key secret timestamp (suc n) s ≡ s
  unfolding render_rounds
  render_rounds-absent n s e = ground arith

  replaced-cons : (c : ℕ) (s : Text) → front (c ∷ s) ≡ none → replaced 0 (c ∷ s) ≡ c ∷ replaced 0 s
  unfolding replaced
  replaced-cons c s e = ground arith

  -- A placeholder at the front is replaced.
  replaced-found :
      (c : ℕ) (s r : Text) (p : Placeholder)
      → front (c ∷ s) ≡ some (p, r)
      → replaced 0 (c ∷ s) ≡ value_of key secret timestamp p ++ replaced 0 r
  unfolding replaced
  replaced-found c s r p e = ground (arith, replaced-front c s r p e)

  render_rounds-found :
      (n c : ℕ) (s r : Text) (p : Placeholder)
      → front (c ∷ s) ≡ some (p, r)
      → render_rounds key secret timestamp (suc n) (c ∷ s)
        ≡ value_of key secret timestamp p ++ render_rounds key secret timestamp n r
  unfolding render_rounds
  render_rounds-found n c s r p e = ground (arith, nearest-cons c s)

  render_rounds-replaced :
      (n : ℕ) (s : Text) → length s < n → render_rounds key secret timestamp n s ≡ replaced 0 s
  unfolding render_rounds replaced
  render_rounds-replaced zero s h = ground arith
  render_rounds-replaced (suc n) [] h = render_rounds-absent n [] nearest-nil
  render_rounds-replaced (suc n) (c ∷ s) h = elim (Option-cases (front (c ∷ s))) [
    | inl e ↦
        render_rounds-cons n c s (nearest-cons c s ∙ ap (λ f. placed f c (nearest s)) e)
        ∙ ap (λ t. c ∷ t) (render_rounds-replaced (suc n) s (omega arith))
        ∙ sym (replaced-cons c s e)
    | inr ((p, r), e) ↦
        render_rounds-found n c s r p e
        ∙ ap (λ t. value_of key secret timestamp p ++ t)
            (render_rounds-replaced n r (omega (arith, length-front c s r p e)))
        ∙ sym (replaced-found c s r p e)
  ]

  -- Without any placeholder there is none that is nearest.
  nearest-absent :
      (s : Text)
      → contains s (pattern_of key_placeholder) ≡ false
      → contains s (pattern_of secret_placeholder) ≡ false
      → contains s (pattern_of timestamp_placeholder) ≡ false
      → nearest s ≡ none
  unfolding nearest
  nearest-absent s a b c = ground arith

  render_payload-loop :
      (template : Text)
      → render_payload key secret timestamp template
        ≡ render_rounds key secret timestamp (suc (length template)) template
  unfolding render_payload
  render_payload-loop s = ground (arith, nearest-absent s, render_rounds-absent (length s) s)

  -- Rendering a payload gives, for every template, what one pass from left to right gives that puts
  -- the key, the secret and the decimal timestamp in the place of each placeholder that it meets; what
  -- is put in is not looked at again, and all else stays, braces of unknown names included.
  pub render_payload-replaced :
      (template : Text) → render_payload key secret timestamp template ≡ replaced 0 template
  render_payload-replaced template =
      render_payload-loop template
      ∙ render_rounds-replaced (suc (length template)) template (omega arith)
