-- ===== src/Core/Curl/Outcome.antt =====
-- The invariant of the parser's loop, and what every accepted command looks like.
use mathlib.Core.Path.{subst}
use rust_fox.Prelude.{
  ◌≡◌, ◌⊎◌, inl, inr, refl, sym, ap, ◌∙◌, Bool, true, false, ◌&&◌, ◌||◌, List, [], ◌∷◌, ◌++◌,
  Option, none, some, any, if◌then◌else◌, Bool-cases, Option-cases, All, All-append, ◌==◌, list_eq,
  nat_eq, eqb, arith, beq_sym,
}
use rust_fox.Prelude.Text.{Text, codes, is_empty, trim, split_once, starts_with, join, tail_of}
use rust_fox.Core.Curl.Options.{member, is_value_option, value_long_options, value_short_opts}
use rust_fox.Core.Curl.{
  CurlParsed, Scan, initial, ok, push_ignored, set_url, push_header, set_user, push_data, Next,
  next_word, skip_value, stop, apply_value_option, match_word, step, loop, infer_body, finished,
  finish, parse_words, Word, method_option, header_option, user_option, digest_switch, data_option,
  url_option, long_option, short_option, position, classify, act, is_some, take_rest, long_form,
  set_method, with_value, consume, is_curl, chosen_method, last_state, with_digest,
}
use rust_fox.Core.Method.{post, get}
use rust_fox.Core.External.{CaseMaps}
use rust_fox.Core.Model.{
  new_key_value, AuthSpec, no_auth, basic, digest, bearer, api_key, dynamic_signature, oauth2, hawk,
  aws_v4, hmac,
}

-- No word is noted as ignored twice.
abbrev pub IsNodup : List Text → Type 0
IsNodup [] = Unit
IsNodup (w ∷ ws) = (member w ws ≡ false) × IsNodup ws

member-append : (w : Text) (xs ys : List Text) → member w (xs ++ ys) ≡ (member w xs || member w ys)
member-append w [] ys = refl
member-append w (x ∷ xs) ys = ground (arith, member-append w xs ys)

IsNodup-concat :
    (ws : List Text) (w : Text) → IsNodup ws → member w ws ≡ false → IsNodup (ws ++ w ∷ [])
IsNodup-concat [] w h m = (refl, tt)
IsNodup-concat (x ∷ ws) w (k, h) m =
    (ground (arith, member-append x ws (w ∷ []), beq_sym x w), IsNodup-concat ws w h (ground arith))

abbrev pub IsPlainAuth : AuthSpec → Type 0
IsPlainAuth no_auth = Unit
IsPlainAuth (basic username password) = Unit
IsPlainAuth (digest username password) = Unit
IsPlainAuth _ = ⊥

abbrev pub has_parts : List Text → Bool
has_parts [] = false
has_parts (p ∷ ps) = true

pub record IsSound (s : Scan) : Type 0 where
  pub keyed : All (λ h. is_empty h.key ≡ false) s.out.headers
  pub nodup : IsNodup s.out.ignored
  pub plain : IsPlainAuth s.out.auth
  pub no_body : s.out.body ≡ none
  pub flagged : s.has_data ≡ has_parts s.data_parts

abbrev NextSound : Next → Type 0
NextSound (next_word s) = IsSound s
NextSound (skip_value s) = IsSound s
NextSound (stop s) = IsSound s

set_url-IsSound : (v : Text) (s : Scan) → IsSound s → IsSound (set_url v s)
unfolding set_url
set_url-IsSound v s h = ground arith

push_ignored-IsSound : (w : Text) (s : Scan) → IsSound s → IsSound (push_ignored w s)
unfolding push_ignored
push_ignored-IsSound w s h = ground (arith, IsNodup-concat s.out.ignored w h.nodup)

set_user-IsSound : (v : Text) (s : Scan) → IsSound s → IsSound (set_user v s)
unfolding set_user
set_user-IsSound v s h = ground arith

has_parts-concat : (ps : List Text) (v : Text) → has_parts (ps ++ v ∷ []) ≡ true
has_parts-concat [] v = refl
has_parts-concat (p ∷ ps) v = refl

push_data-IsSound : (v : Text) (s : Scan) → IsSound s → IsSound (push_data v s)
unfolding push_data
push_data-IsSound v s h = ground (arith, has_parts-concat s.data_parts v)

push_header-IsSound : (v : Text) (s : Scan) → IsSound s → IsSound (push_header v s)
unfolding push_header
push_header-IsSound v s h = elim (Option-cases (split_once (codes ":") v)) [
  | inl e ↦ rw (e, push_header) h
  | inr ((k, value), e) ↦ elim (Bool-cases (is_empty (trim k))) [
    | inl blank ↦ rw (e, blank, push_header) h
    | inr named ↦
        rw (e, named, push_header)
          (record {
            keyed = All-append _ s.out.headers _ h.keyed (unfold new_key_value in (named, tt));
            nodup = h.nodup;
            plain = h.plain;
            no_body = h.no_body;
            flagged = h.flagged;
          })
  ]
]

consume-NextSound :
    (o : Option Text) (f : Text → Scan → Scan) (s : Scan)
    → IsSound s
    → ((v : Text) → IsSound (f v s))
    → NextSound (consume s (with_value o f s))
consume-NextSound none f s h k = h
consume-NextSound (some v) f s h k = k v

if-IsSound : (b : Bool) (s t : Scan) → IsSound s → IsSound t → IsSound (if b then s else t)
if-IsSound true s t h k = h
if-IsSound false s t h k = k

if-NextSound : (b : Bool) (s t : Next) → NextSound s → NextSound t → NextSound (if b then s else t)
if-NextSound true s t h k = h
if-NextSound false s t h k = k

module _ (cases : CaseMaps) where
  set_method-IsSound : (v : Text) (s : Scan) → IsSound s → IsSound (set_method cases v s)
  set_method-IsSound v s h = ground arith

  apply_value_option-IsSound :
      (name v : Text) (s : Scan) → IsSound s → IsSound (apply_value_option cases name v s)
  unfolding apply_value_option
  apply_value_option-IsSound name v s h = ground (
    arith,
    set_url-IsSound v s h,
    set_method-IsSound v s h,
    push_header-IsSound v s h,
    set_user-IsSound v s h,
    push_data-IsSound v s h,
  )

  act-NextSound :
      (k : Word) (w : Text) (value : Option Text) (s : Scan)
      → IsSound s
      → NextSound (act cases k w value s)
  unfolding act
  act-NextSound method_option w value s h =
      consume-NextSound value _ s h (λ v. set_method-IsSound v s h)
  act-NextSound header_option w value s h =
      consume-NextSound value _ s h (λ v. push_header-IsSound v s h)
  act-NextSound user_option w value s h =
      consume-NextSound value _ s h (λ v. set_user-IsSound v s h)
  act-NextSound digest_switch w value s h = ground arith
  act-NextSound data_option w value s h =
      consume-NextSound value _ s h (λ v. push_data-IsSound v s h)
  act-NextSound url_option w value s h = consume-NextSound value _ s h (λ v. set_url-IsSound v s h)
  act-NextSound long_option w value s h =
      if-NextSound (is_some value && member w value_long_options) _ _ (push_ignored-IsSound w s h)
        (push_ignored-IsSound w s h)
  act-NextSound short_option w value s h =
      if-NextSound (is_some value && any (λ c. any (eqb c) value_short_opts) (tail_of w)) _ _
        (push_ignored-IsSound w s h) (push_ignored-IsSound w s h)
  act-NextSound position w value s h = set_url-IsSound w s h

  match_word-NextSound :
      (w : Text) (value : Option Text) (s : Scan)
      → IsSound s
      → NextSound (match_word cases w value s)
  unfolding match_word
  match_word-NextSound w value s h = act-NextSound (classify w) w value s h

  take_rest-NextSound :
      (value : Option Text) (s : Scan) → IsSound s → NextSound (take_rest cases value s)
  take_rest-NextSound none s h = h
  take_rest-NextSound (some v) s h = set_url-IsSound v s h

  long_form-NextSound :
      (o : Option (Text × Text)) (w : Text) (value : Option Text) (s : Scan)
      → IsSound s
      → NextSound (long_form cases o w value s)
  long_form-NextSound none w value s h = match_word-NextSound w value s h
  long_form-NextSound (some (name, v)) w value s h =
      if-NextSound (starts_with name (codes "--")) _ _
        (if-IsSound (is_value_option name) _ _ (apply_value_option-IsSound name v s h)
          (push_ignored-IsSound name s h))
        (match_word-NextSound w value s h)

  step-NextSound :
      (first : Bool) (w : Text) (value : Option Text) (s : Scan)
      → IsSound s
      → NextSound (step cases first w value s)
  unfolding step
  step-NextSound first w value s h = if-NextSound (first && is_curl w) _ _ h (
      if-NextSound (w == codes "--") _ _ (take_rest-NextSound value s h)
        (long_form-NextSound (split_once (codes "=") w) w value s h))

  loop-IsSound :
      (first : Bool) (words : List Text) (s : Scan) → IsSound s → IsSound (loop cases first words s)
  unfolding loop
  loop-IsSound first [] s h = h
  loop-IsSound first (w ∷ []) s h =
      last (step cases first w none s) (step-NextSound first w none s h)
    where
      last : (n : Next) → NextSound n → IsSound (last_state cases n)
      last (next_word t) k = k
      last (skip_value t) k = k
      last (stop t) k = k
  loop-IsSound first (w ∷ v ∷ words) s h =
      go (step cases first w (some v) s) (step-NextSound first w (some v) s h)
        (loop-IsSound false (v ∷ words)) (loop-IsSound false words)
    where
      go :
          (n : Next)
          → NextSound n
          → ((t : Scan) → IsSound t → IsSound (loop cases false (v ∷ words) t))
          → ((t : Scan) → IsSound t → IsSound (loop cases false words t))
          → IsSound (elim n [
            | next_word t ↦ loop cases false (v ∷ words) t
            | skip_value t ↦ loop cases false words t
            | stop t ↦ t
          ])
      go (next_word t) k on over = on t k
      go (skip_value t) k on over = over t k
      go (stop t) k on over = k

initial-IsSound : IsSound initial
initial-IsSound = record { keyed = tt; nodup = tt; plain = tt; no_body = refl; flagged = refl }

ok-injective : (a b : CurlParsed) → ok a ≡ ok b → a ≡ b
ok-injective a b e = cc

module _ (cases : CaseMaps) (is_json : Text → Bool) where
  -- An accepted command, by the state behind the loop: it has a URL; its header names are not empty; its ignored words are distinct;
  -- its authentication is none, Basic or Digest; and it has a body exactly when it has data words,
  -- which are joined by `&`; its method is the explicit one of the state, or without one POST with data
  -- words and GET without.
  pub record IsAccepted (s : Scan) (p : CurlParsed) : Type 0 where
    pub located : is_empty p.url ≡ false
    pub keyed : All (λ h. is_empty h.key ≡ false) p.headers
    pub nodup : IsNodup p.ignored
    pub plain : IsPlainAuth p.auth
    pub body_is : p.body ≡ (
        if has_parts s.data_parts
        then some (infer_body cases is_json (join (codes "&") s.data_parts))
        else none)
    pub method_is :
        (s.explicit ≡ some p.method)
        ⊎ (s.explicit ≡ none) × (p.method ≡ (if has_parts s.data_parts then post else get))

  with_digest-IsPlainAuth :
      (b : Bool) (auth : AuthSpec)
      → IsPlainAuth auth
      → IsPlainAuth (with_digest cases is_json b auth)
  with_digest-IsPlainAuth true (basic username password) h = tt
  with_digest-IsPlainAuth true no_auth h = tt
  with_digest-IsPlainAuth true (digest username password) h = tt
  with_digest-IsPlainAuth true (bearer token) h = h
  with_digest-IsPlainAuth true (api_key key value at) h = h
  with_digest-IsPlainAuth true (dynamic_signature config) h = h
  with_digest-IsPlainAuth true (oauth2 a b c d e f g) h = h
  with_digest-IsPlainAuth true (hawk key_id key) h = h
  with_digest-IsPlainAuth true (aws_v4 a b c d e) h = h
  with_digest-IsPlainAuth true (hmac a b) h = h
  with_digest-IsPlainAuth false auth h = h

  chosen_method-cases :
      (s : Scan)
      → s.has_data ≡ has_parts s.data_parts
      → (s.explicit ≡ some (chosen_method cases is_json s))
        ⊎ (s.explicit ≡ none)
          × (chosen_method cases is_json s ≡ (if has_parts s.data_parts then post else get))
  chosen_method-cases s e = elim (Option-cases s.explicit) [
    | inl f ↦ inr (f, rw (f, e) refl)
    | inr (m, f) ↦ inl (f ∙ sym (ap some (rw f refl)))
  ]

  finished-IsAccepted :
      (s : Scan) → is_empty s.out.url ≡ false → IsSound s → IsAccepted s (finished cases is_json s)
  finished-IsAccepted s located h = record {
    located = located;
    keyed = h.keyed;
    nodup = h.nodup;
    plain = with_digest-IsPlainAuth s.digest_flag s.out.auth h.plain;
    body_is = rw (h.flagged, h.no_body) refl;
    method_is = chosen_method-cases s h.flagged;
  }

  finish-IsAccepted :
      (s : Scan) {p : CurlParsed} → IsSound s → finish cases is_json s ≡ ok p → IsAccepted s p
  unfolding finish
  finish-IsAccepted s {p} h e = elim (Bool-cases (is_empty s.out.url)) [
    | inl missing ↦ cc (rw missing at e)
    | inr located ↦
        let same : finished cases is_json s ≡ p = ok-injective _ _ (rw located at e) in
        subst (IsAccepted s) same (finished-IsAccepted s located h)
  ]

  -- Every command that the parser accepts is as `IsAccepted` says of the state behind the loop.
  pub parse_words-IsAccepted :
      (w : Text) (words : List Text) {p : CurlParsed}
      → parse_words cases is_json (some (w ∷ words)) ≡ ok p
      → IsAccepted (loop cases true (w ∷ words) initial) p
  unfolding parse_words
  parse_words-IsAccepted w words e =
      finish-IsAccepted (loop cases true (w ∷ words) initial)
        (loop-IsSound cases true (w ∷ words) initial initial-IsSound) e
