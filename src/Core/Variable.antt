-- ===== src/Core/Variable.antt =====
-- fox-core/src/variable.rs: the `{{name}}` engine, its built-in values and the sequence counters.
-- The process-wide tables are a state that is passed along; a release build is modelled, so the
-- `u64` counters wrap.
pub mod BuiltIn
pub mod Counters
pub mod Merge
pub mod Substitute
pub mod Total
use rust_fox.Prelude.{
  ℕ, zero, suc, ◌+◌, ◌%◌, ◌^◌, Bool, true, false, ◌&&◌, List, [], ◌∷◌, ◌++◌, Option, none, some,
  length, eqb, if◌then◌else◌, ◌==◌, list_eq, nat_eq,
}
use rust_fox.Prelude.Dict.{Dict, get, insert, remove, extend}
use rust_fox.Prelude.Text.{Text, codes, is_empty, trim, strip_prefix, show, before}
use rust_fox.Core.External.{Sources}

abbrev pub VariableMap : Type 0
VariableMap = Dict Text Text

abbrev pub max_variable_depth : ℕ
max_variable_depth = 10

-- `SEQ_COUNTERS`, `SEQ_DIRTY`, and how many values were drawn from outside so far.
pub record World : Type 0 where
  pub counters : Dict Text ℕ
  pub dirty : Bool
  pub draws : ℕ

abbrev pub or_zero : Option ℕ → ℕ
or_zero none = 0
or_zero (some n) = n

-- The next output of a counter; an unset one, or 0, counts as 1.
abbrev pub next_output : Option ℕ → ℕ
next_output cur = if eqb (or_zero cur) 0 then 1 else or_zero cur

unfoldable pub seq_value : Text → World → Text × World
unfolding get insert
seq_value key w =
    let out = next_output (get key w.counters) in
    (show out, record w { counters = insert key ((out + 1) % 2 ^ 64) w.counters; dirty = true })

unfoldable pub take_seq_dirty : World → Bool × World
take_seq_dirty w = (w.dirty, record w { dirty = false })

unfoldable pub set_seq_counter : Text → ℕ → World → World
unfolding insert
set_seq_counter key value w = record w { counters = insert key value w.counters; dirty = true }

unfoldable pub delete_seq_counter : Text → World → World
unfolding remove
delete_seq_counter key w = record w { counters = remove key w.counters; dirty = true }

unfoldable pub dump_seq_counters : World → Dict Text ℕ
dump_seq_counters w = w.counters

unfoldable pub load_seq_counters : Dict Text ℕ → World → World
unfolding extend
load_seq_counters map w = record w { counters = extend w.counters map }

-- The three tables in the order project, environment, runtime: a later one wins.
unfoldable pub merge_variables : (runtime environment project : VariableMap) → VariableMap
unfolding extend
merge_variables runtime environment project =
    extend (extend (extend [] project) environment) runtime

-- One round of the search for `}}`.
unfoldable pub find_close : Text → Option (Text × Text)
find_close [] = none
find_close (a ∷ []) = none
find_close (a ∷ b ∷ s) =
    let later = find_close (b ∷ s) in
    if eqb a b'}' && eqb b b'}' then some ([], s) else before a later

-- `&s[i..close + 2]`
abbrev pub raw_token : Text → Text
raw_token inner = b'{' ∷ b'{' ∷ (inner ++ b'}' ∷ b'}' ∷ [])

abbrev draw : Text → World → Option Text × World
draw value w = (some value, record w { draws = w.draws + 1 })

-- The key behind `$seq`: that after a colon, or the global one.
abbrev pub seq_key : Option Text → Text
seq_key none = []
seq_key (some key) = key

module _ (src : Sources) where
  unfoldable pub builtin_value : Text → World → Option Text × World
  unfolding seq_value strip_prefix
  builtin_value name w =
      if name == codes "$uuid"
      then draw (src.new_v4 w.draws) w
      else if name == codes "$timestamp"
      then draw (src.timestamp w.draws) w
      else if name == codes "$isoTimestamp"
      then draw (src.iso_timestamp w.draws) w
      else if name == codes "$randomInt"
      then draw (show (src.random w.draws 1001)) w
      else elim (strip_prefix (codes "$seq") name) [
        | none ↦ (none, w)
        | some rest ↦
            let (value, w') = seq_value (seq_key (strip_prefix (codes ":") rest)) w in
            (some value, w')
      ]

  module _ (vars : VariableMap) (allow_builtin : Bool) where
    unfoldable pub lookup : Text → World → Option Text × World
    unfolding get builtin_value
    lookup name w = elim (get name vars) [
      | some value ↦ (some value, w)
      | none ↦ if allow_builtin then builtin_value name w else (none, w)
    ]

    -- What a token is replaced by; `resolve` is the resolver one level down.
    unfoldable pub substitute :
        (resolve : Text → World → Option (Text × World)) (inner : Text)
        → World
        → Option (Text × World)
    unfolding lookup trim
    substitute resolve inner w =
        let name = trim inner in
        if is_empty name
        then some (raw_token inner, w)
        else let (found, w') = lookup name w in
          elim found [ some value ↦ resolve value w' | none ↦ some (raw_token inner, w') ]

    -- The scan: `pending` is `s[copied..i]` and `rest` is `s[i..]`. The result is what the source
    -- appends to `out`; `none` means that the fuel ran out.
    unfoldable pub scan :
        (resolve : Text → World → Option (Text × World)) (fuel : ℕ) (pending rest : Text)
        → World
        → Option (Text × World)
    unfolding find_close substitute
    scan resolve zero pending rest w = none
    scan resolve (suc fuel) pending [] w = some (pending, w)
    scan resolve (suc fuel) pending (c ∷ []) w = some (pending ++ c ∷ [], w)
    scan resolve (suc fuel) pending (c ∷ d ∷ s) w =
        let further = scan resolve fuel (pending ++ c ∷ []) (d ∷ s) w in
        if eqb c b'{' && eqb d b'{'
        then elim (find_close s) [
          | none ↦ some (pending ++ c ∷ d ∷ s, w)
          | some (inner, after) ↦ elim (substitute resolve inner w) [
            | none ↦ none
            | some (value, w') ↦ elim (scan resolve fuel [] after w') [
              | none ↦ none
              | some (later, w'') ↦ some (pending ++ (value ++ later), w'')
            ]
          ]
        ]
        else further

    -- `depth` levels are left; at 0 the text is taken as it stands.
    unfoldable pub resolve_into : (depth : ℕ) → Text → World → Option (Text × World)
    unfolding scan
    resolve_into zero s w = some (s, w)
    resolve_into (suc depth) s w = scan (resolve_into depth) (suc (length s)) [] s w

  unfoldable pub resolve_variables_with :
      Text → VariableMap → (max_depth : ℕ) (allow_builtin : Bool) → World → Option (Text × World)
  unfolding resolve_into
  resolve_variables_with input vars max_depth allow_builtin w =
      resolve_into vars allow_builtin max_depth input w

  unfoldable pub resolve_variables : Text → VariableMap → World → Option (Text × World)
  unfolding resolve_variables_with
  resolve_variables input vars w = resolve_variables_with input vars max_variable_depth true w
