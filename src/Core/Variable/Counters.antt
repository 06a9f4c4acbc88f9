-- ===== src/Core/Variable/Counters.antt =====
-- The sequence counters `{{$seq}}` and `{{$seq:name}}`.
use mathlib.Core.Path.{ap₂}
use rust_fox.Prelude.{
  ℕ, zero, suc, ◌+◌, ◌%◌, ◌^◌, ◌<◌, ◌≡◌, ◌≢◌, refl, ap, ◌∙◌, beq_refl, true, false, List, [], ◌∷◌,
  ◌++◌, map, none, some, list_eq, nat_eq, list_beq_iff, arith,
}
use rust_fox.Prelude.Dict.{get, get-insert, get-insert_self, get-remove}
use rust_fox.Prelude.Text.{Text, codes, strip_prefix, show}
use rust_fox.Core.External.{Sources}
use rust_fox.Core.Variable.{
  World, next_output, seq_value, take_seq_dirty, set_seq_counter, delete_seq_counter, builtin_value,
  seq_key,
}

-- `n` reads of one counter in a row.
abbrev pub read_seq : ℕ → Text → World → List Text × World
read_seq zero key w = ([], w)
read_seq (suc n) key w =
    let (value, w') = seq_value key w in
    let (values, w'') = read_seq n key w' in (value ∷ values, w'')

abbrev pub count_up : ℕ → ℕ → List ℕ
count_up c zero = []
count_up c (suc n) = c ∷ count_up (suc c) n

-- The next output of the counter `key`.
abbrev pub upcoming : Text → World → ℕ
upcoming key w = next_output (get key w.counters)

upcoming-seq_value :
    (key : Text) (w : World)
    → upcoming key w + 1 < 2 ^ 64
    → upcoming key (seq_value key w).1 ≡ suc (upcoming key w)
unfolding seq_value
upcoming-seq_value key w h = rw get-insert_self (ground arith)

pub get-seq_value_ne :
    (key other : Text) (w : World)
    → key ≢ other
    → get other (seq_value key w).1.counters ≡ get other w.counters
unfolding seq_value
get-seq_value_ne key other w ne =
    ground (
      arith,
      get-insert other key ((upcoming key w + 1) % 2 ^ 64) w.counters,
      list_beq_iff key other,
    )

seq_value-output : (key : Text) (w : World) → (seq_value key w).0 ≡ show (upcoming key w)
unfolding seq_value
seq_value-output key w = refl

-- As long as the counter does not reach 2^64, `n` reads of it in a row return `n` consecutive
-- numbers from its next output on, leave it `n` further, and leave any other counter alone.
pub read_seq-count_up :
    (n : ℕ) (key other : Text) (w : World)
    → upcoming key w + n < 2 ^ 64
    → key ≢ other
    → ((read_seq n key w).0 ≡ map show (count_up (upcoming key w) n))
      × (upcoming key (read_seq n key w).1 ≡ upcoming key w + n)
      × (get other (read_seq n key w).1.counters ≡ get other w.counters)
read_seq-count_up zero key other w h ne = (refl, omega arith, refl)
read_seq-count_up (suc n) key other w h ne =
    let w' = (seq_value key w).1 in
    let e : upcoming key w' ≡ suc (upcoming key w) = upcoming-seq_value key w (omega arith) in
    let (outs, end, others) = read_seq-count_up n key other w' (omega arith) ne in
    (
      ap₂ ◌∷◌ (seq_value-output key w) (outs ∙ rw e refl),
      end ∙ omega arith,
      others ∙ get-seq_value_ne key other w ne,
    )

-- A counter that is set to a positive number gives that number next, and a deleted one starts again
-- from 1.
pub set_seq_counter-upcoming :
    (key : Text) (value : ℕ) (w : World)
    → 0 < value
    → (upcoming key (set_seq_counter key value w) ≡ value)
      × (upcoming key (delete_seq_counter key w) ≡ 1)
unfolding set_seq_counter delete_seq_counter
set_seq_counter-upcoming key value w h =
    (rw get-insert_self (ground arith), rw (get-remove, beq_refl) refl)

abbrev pub TakesOnce : World → Type 0
TakesOnce w = ((take_seq_dirty w).0 ≡ true) × ((take_seq_dirty (take_seq_dirty w).1).0 ≡ false)

-- A read, a set and a delete each mark the counters dirty, and the mark is taken once.
pub take_seq_dirty_once :
    (key : Text) (value : ℕ) (w : World)
    → TakesOnce (seq_value key w).1
      × TakesOnce (set_seq_counter key value w)
      × TakesOnce (delete_seq_counter key w)
unfolding take_seq_dirty seq_value set_seq_counter delete_seq_counter
take_seq_dirty_once key value w = ground arith

-- Every name that begins with `$seq` and goes on with no colon reads the global counter.
pub builtin_value-seq_prefix :
    (src : Sources) (rest : Text) (w : World)
    → strip_prefix (codes ":") rest ≡ none
    → builtin_value src (codes "$seq" ++ rest) w ≡ builtin_value src (codes "$seq") w
unfolding builtin_value strip_prefix
builtin_value-seq_prefix src rest w h =
    ap (λ o. let (value, w') = seq_value (seq_key o) w in (some value, w')) h
