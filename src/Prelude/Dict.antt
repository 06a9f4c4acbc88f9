-- ===== src/Prelude/Dict.antt =====
-- `HashMap` as an association list: the order of the pairs stands for the iteration order. Every
-- statement goes through `get`, so none depends on that order.
use mathlib.Core.Path.{◌≡◌, refl}
use mathlib.Core.Logic.{inl, inr}
use mathlib.Core.Option.{Option, none, some}
use mathlib.Core.List.{List, [], ◌∷◌}
use native.Mathlib.Omega.{arith}
use rust_fox.Prelude.Tests.{if◌then◌else◌, Bool-cases}
use rust_fox.Prelude.Keys.{Eq, ◌==◌, beq_refl, beq_sym}

abbrev pub Dict {ℓ κ} : Type ℓ → Type κ → Type (ℓ ⊔ κ)
Dict K V = List (K × V)

-- `Option::or`
abbrev pub or_else {κ} : {V : Type κ} → Option V → Option V → Option V
or_else none o = o
or_else (some v) o = some v

module _ {ℓ κ} {K : Type ℓ} {V : Type κ} ⦃e : Eq K⦄ where
  unfoldable pub get : K → Dict K V → Option V
  get k [] = none
  get k ((j, v) ∷ m) = if j == k then some v else get k m

  unfoldable pub insert : K → V → Dict K V → Dict K V
  insert k v [] = (k, v) ∷ []
  insert k v ((j, w) ∷ m) = if j == k then (j, v) ∷ m else (j, w) ∷ insert k v m

  unfoldable pub remove : K → Dict K V → Dict K V
  remove k [] = []
  remove k ((j, w) ∷ m) = if j == k then remove k m else (j, w) ∷ remove k m

  -- `for (k, v) in other { map.insert(k, v) }`, which is also `extend`.
  unfoldable pub extend : Dict K V → Dict K V → Dict K V
  extend m [] = m
  extend m ((k, v) ∷ other) = extend (insert k v m) other

  -- `entry(k).or_insert(v)`: an entry that is there stays.
  abbrev pub or_insert : K → V → Dict K V → Dict K V
  or_insert k v m = elim (get k m) [ none ↦ insert k v m | some w ↦ m ]

  pub get-insert :
      (j k : K) (v : V) (m : Dict K V) → get j (insert k v m) ≡ (if k == j then some v else get j m)
  unfolding get insert
  get-insert j k v [] = refl
  get-insert j k v ((i, w) ∷ m) =
      ground (arith, e.beq_iff k j, e.beq_iff i k, e.beq_iff i j, get-insert j k v m)

  pub get-insert_self : (k : K) (v : V) (m : Dict K V) → get k (insert k v m) ≡ some v
  get-insert_self k v m = rw (get-insert, beq_refl) refl

  pub get-remove :
      (j k : K) (m : Dict K V) → get j (remove k m) ≡ (if k == j then none else get j m)
  unfolding get remove
  get-remove j k [] = ground arith
  get-remove j k ((i, w) ∷ m) =
      ground (arith, e.beq_iff k j, e.beq_iff i k, e.beq_iff i j, get-remove j k m)

  -- A `HashMap` holds one entry for each key.
  abbrev pub IsMap : Dict K V → Type κ
  IsMap [] = Unit
  IsMap ((k, v) ∷ m) = (get k m ≡ none) × IsMap m

  pub insert-IsMap : (k : K) (v : V) (m : Dict K V) → IsMap m → IsMap (insert k v m)
  unfolding get insert
  insert-IsMap k v [] h = (refl, tt)
  insert-IsMap k v ((j, w) ∷ m) h = elim (Bool-cases (j == k)) [
    | inl same ↦ rw same h
    | inr other ↦ rw other (rw (get-insert, beq_sym, other) h.0, insert-IsMap k v m h.1)
  ]

  pub extend-IsMap : (m other : Dict K V) → IsMap m → IsMap (extend m other)
  unfolding extend
  extend-IsMap m [] h = h
  extend-IsMap m ((k, v) ∷ other) h = extend-IsMap (insert k v m) other (insert-IsMap k v m h)

  -- The later table wins, key by key.
  pub get-extend :
      (j : K) (m other : Dict K V)
      → IsMap other
      → get j (extend m other) ≡ or_else (get j other) (get j m)
  unfolding get extend
  get-extend j m [] h = refl
  get-extend j m ((k, v) ∷ other) h = elim (Bool-cases (k == j)) [
    | inl same ↦
        rw (same, get-extend j (insert k v m) other h.1, get-insert, same)
          (rw (← (e.beq_iff k j).0 same, h.0))
    | inr apart ↦ rw (apart, get-extend j (insert k v m) other h.1, get-insert, apart) refl
  ]
