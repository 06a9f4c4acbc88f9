-- ===== src/Core/Variable/BuiltIn.antt =====
-- What one token stands for: a variable, a built-in value, or itself.
use rust_fox.Prelude.{
  ℕ, zero, suc, ◌+◌, ◌%◌, ◌^◌, ◌<◌, ◌≡◌, ◌≢◌, refl, ap, ◌∙◌, inl, inr, ◌⊎◌, Bool, true, false, ◌||◌,
  [], ◌++◌, Option, none, some, Bool-cases, Option-cases, arith, list_eq, nat_eq, list_beq_iff,
  ◌==◌,
}
use rust_fox.Prelude.Dict.{get, get-insert_self}
use rust_fox.Prelude.Search.{strip_prefix_sound}
use rust_fox.Prelude.Text.{Text, codes, strip_prefix, starts_with, is_empty, trim, show}
use rust_fox.Core.External.{Sources}
use rust_fox.Core.Variable.Counters.{get-seq_value_ne}
use rust_fox.Core.Variable.Total.{Resolver}
use rust_fox.Core.Variable.{
  World, VariableMap, raw_token, lookup, substitute, builtin_value, seq_value, next_output, seq_key,
}

-- A counter is read: its number is given, 1 for a new one or one at 0, and it goes up by one; the other
-- counters stay, and nothing is drawn.
pub record CountsUp (key : Text) (w : World) (value : Text) (w' : World) : Type 0 where
  pub output : ℕ
  pub started :
      (get key w.counters ≡ some output) × (0 < output)
      ⊎ (output ≡ 1) × ((get key w.counters ≡ none) ⊎ (get key w.counters ≡ some 0))
  pub shown : value ≡ show output
  pub counted : get key w'.counters ≡ some ((output + 1) % 2 ^ 64)
  pub others : (other : Text) → key ≢ other → get other w'.counters ≡ get other w.counters
  pub noted : w'.dirty ≡ true
  pub undrawn : w'.draws ≡ w.draws

abbrev pub one_drawn : World → World
one_drawn w = record w { draws = w.draws + 1 }

-- The built-in values by their names.
pub data BuiltIn (src : Sources) (name : Text) (w : World) : Text → World → Type 0 where
  uuid : name ≡ codes "$uuid" → BuiltIn src name w (src.new_v4 w.draws) (one_drawn w)
  timestamp : name ≡ codes "$timestamp" → BuiltIn src name w (src.timestamp w.draws) (one_drawn w)
  iso_timestamp :
      name ≡ codes "$isoTimestamp" → BuiltIn src name w (src.iso_timestamp w.draws) (one_drawn w)
  random_int :
      name ≡ codes "$randomInt" → BuiltIn src name w (show (src.random w.draws 1001)) (one_drawn w)
  named_counter :
      (key value : Text) (w' : World)
      → name ≡ codes "$seq" ++ (codes ":" ++ key)
      → CountsUp key w value w'
      → BuiltIn src name w value w'
  global_counter :
      (rest value : Text) (w' : World)
      → name ≡ codes "$seq" ++ rest
      → starts_with rest (codes ":") ≡ false
      → CountsUp [] w value w'
      → BuiltIn src name w value w'

abbrev pub is_builtin : Text → Bool
is_builtin name =
    name == codes "$uuid"
    || name == codes "$timestamp"
    || name == codes "$isoTimestamp"
    || name == codes "$randomInt"
    || starts_with name (codes "$seq")

started-from :
    (o : Option ℕ)
    → (o ≡ some (next_output o)) × (0 < next_output o)
      ⊎ (next_output o ≡ 1) × ((o ≡ none) ⊎ (o ≡ some 0))
started-from none = inr (refl, inl refl)
started-from (some zero) = inr (refl, inr refl)
started-from (some (suc n)) = inl (ground arith, ground arith)

seq_value-CountsUp :
    (key : Text) (w : World) → CountsUp key w (seq_value key w).0 (seq_value key w).1
unfolding seq_value
seq_value-CountsUp key w = record {
  output = next_output (get key w.counters);
  started = started-from (get key w.counters);
  shown = refl;
  counted = get-insert_self key _ w.counters;
  others = λ other ne. get-seq_value_ne key other w ne;
  noted = refl;
  undrawn = refl;
}

-- What `builtin_value` may come to.
abbrev Known : (src : Sources) (name : Text) (w : World) → Option Text × World → Type 0
Known src name w r =
    ((value : Text) × (w' : World) × (r ≡ (some value, w')) × BuiltIn src name w value w')
    ⊎ (is_builtin name ≡ false) × (r ≡ (none, w))

named : (a b : Text) → (a == b) ≡ true → a ≡ b
named a b h = (list_beq_iff a b).0 h

counter-Known :
    (src : Sources) (name rest : Text) (w : World) (o : Option Text)
    → name ≡ codes "$seq" ++ rest
    → strip_prefix (codes ":") rest ≡ o
    → BuiltIn src name w (seq_value (seq_key o) w).0 (seq_value (seq_key o) w).1
counter-Known src name rest w none e f =
    global_counter rest _ _ e (ground arith) (seq_value-CountsUp [] w)
counter-Known src name rest w (some key) e f =
    named_counter key _ _
      (e ∙ ap (λ t. codes "$seq" ++ t) (strip_prefix_sound (codes ":") rest key f))
      (seq_value-CountsUp key w)

builtin_value-Known :
    (src : Sources) (name : Text) (w : World) → Known src name w (builtin_value src name w)
unfolding builtin_value
builtin_value-Known src name w = elim (Bool-cases (name == codes "$uuid")) [
  | inl a ↦ rw a (inl (_, _, refl, uuid (named _ _ a)))
  | inr a ↦ elim (Bool-cases (name == codes "$timestamp")) [
    | inl b ↦ rw (a, b) (inl (_, _, refl, timestamp (named _ _ b)))
    | inr b ↦ elim (Bool-cases (name == codes "$isoTimestamp")) [
      | inl c ↦ rw (a, b, c) (inl (_, _, refl, iso_timestamp (named _ _ c)))
      | inr c ↦ elim (Bool-cases (name == codes "$randomInt")) [
        | inl d ↦ rw (a, b, c, d) (inl (_, _, refl, random_int (named _ _ d)))
        | inr d ↦ elim (Option-cases (strip_prefix (codes "$seq") name)) [
          | inl e ↦ rw (a, b, c, d, e) (inr (refl, refl))
          | inr (rest, e) ↦
              rw (a, b, c, d, e)
                (inl (
                  _,
                  _,
                  refl,
                  counter-Known src name rest w (strip_prefix (codes ":") rest)
                      (strip_prefix_sound (codes "$seq") name rest e) refl,
                ))
        ]
      ]
    ]
  ]
]

-- What stands for one token: a blank one is kept; a named one is the variable of that name,
-- resolved further, with the world untouched; else, if allowed, the built-in value, resolved
-- further in the world that it leaves; else the token is kept, blanks included.
pub data Replaces (src : Sources) (vars : VariableMap) (f : Resolver) (inner : Text) (w : World)
    : Bool → Option (Text × World) → Type 0 where
  blank :
      {allow : Bool} {o : Option (Text × World)}
      → is_empty (trim inner) ≡ true
      → o ≡ some (raw_token inner, w)
      → Replaces src vars f inner w allow o
  variable :
      {allow : Bool} {o : Option (Text × World)} (value : Text)
      → is_empty (trim inner) ≡ false
      → get (trim inner) vars ≡ some value
      → o ≡ f value w
      → Replaces src vars f inner w allow o
  builtin :
      {allow : Bool} {o : Option (Text × World)} (value : Text) (w' : World)
      → is_empty (trim inner) ≡ false
      → get (trim inner) vars ≡ none
      → allow ≡ true
      → BuiltIn src (trim inner) w value w'
      → o ≡ f value w'
      → Replaces src vars f inner w allow o
  unknown :
      {allow : Bool} {o : Option (Text × World)}
      → is_empty (trim inner) ≡ false
      → get (trim inner) vars ≡ none
      → (allow ≡ false) ⊎ (is_builtin (trim inner) ≡ false)
      → o ≡ some (raw_token inner, w)
      → Replaces src vars f inner w allow o

-- A token with a blank name is kept as it is written. A variable's value is resolved one level further
-- down, and shadows a built-in value of its name. Where these are allowed, `$uuid`, `$timestamp`,
-- `$isoTimestamp` and `$randomInt` stand for a fresh draw of that kind, and a name that begins with
-- `$seq` for the number of its counter, that behind `$seq:` or else the global one, which goes up by one
-- (modulo 2^64) and begins with 1, while the others stay; the value is resolved one level further down
-- too. Any other token is kept as it is written.
pub substitute-Replaces :
    (src : Sources) (vars : VariableMap) (allow : Bool) (f : Resolver) (inner : Text) (w : World)
    → Replaces src vars f inner w allow (substitute src vars allow f inner w)
unfolding substitute lookup
substitute-Replaces src vars allow f inner w = elim (Bool-cases (is_empty (trim inner))) [
  | inl none_given ↦ blank none_given (ground arith)
  | inr given ↦ elim (Option-cases (get (trim inner) vars)) [
    | inr (value, known) ↦ variable value given known (ground arith)
    | inl free ↦ elim (Bool-cases allow) [
      | inr off ↦ unknown given free (inl off) (ground arith)
      | inl on ↦ elim (builtin_value-Known src (trim inner) w) [
        | inl (value, w', e, b) ↦ builtin value w' given free on b (ground (arith, e))
        | inr (other, e) ↦ unknown given free (inr other) (ground (arith, e))
      ]
    ]
  ]
]
