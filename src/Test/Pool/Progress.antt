-- ===== src/Test/Pool/Progress.antt =====
-- The pool neither blocks nor runs for ever: a state that is not done has a step other than a
-- cancel, and each such step lowers a measure.
use rust_fox.Prelude.{
  ℕ, suc, ◌+◌, ◌-◌, ◌*◌, ◌<◌, ◌≤◌, ◌≡◌, refl, inl, inr, ◌⊎◌, Bool, true, false, List, [], ◌∷◌, some,
  length, length-append, get_elem?, All, arith, Bool-cases, ltb, ltb→lt,
}
use rust_fox.Test.Pool.Counts.{total_of, total_of-set}
use rust_fox.Test.Pool.{
  Worker, idle, checked, stopped, busy, sending, Pool, put, claimed, exhausted, sent, taken, Step,
  cancel, see_cancel, pass_check, claim, exhaust, respond, send, receive, IsDone,
}

module _ {ℓ} {R : Type ℓ} where
  abbrev pub works : {total cap : ℕ} {s t : Pool R} → Step total cap s t → Bool
  works (cancel e) = false
  works _ = true

  -- A step that is not the environment's cancel.
  abbrev pub Move : (total cap : ℕ) (s t : Pool R) → Type ℓ
  Move total cap s t = (st : Step total cap s t) × (works st ≡ true)

  abbrev pub Movable : (total cap : ℕ) → Pool R → Type ℓ
  Movable total cap s = (t : Pool R) × (st : Step total cap s t) × (works st ≡ true)

  abbrev is_active : Worker R → Bool
  is_active stopped = false
  is_active _ = true

  abbrev Found : List (Worker R) → Type ℓ
  Found ws = (i : ℕ) × (w : Worker R) × (get_elem? ws i ≡ some w) × (is_active w ≡ true)

  find_active : (ws : List (Worker R)) → All (λ w. w ≡ stopped) ws ⊎ Found ws
  find_active [] = inl tt
  find_active (stopped ∷ ws) = elim (find_active ws) [
    | inl all ↦ inl (refl, all)
    | inr (i, w, e, a) ↦ inr (suc i, w, e, a)
  ]
  find_active (idle ∷ ws) = inr (0, idle, refl, refl)
  find_active (checked ∷ ws) = inr (0, checked, refl, refl)
  find_active (busy j ∷ ws) = inr (0, busy j, refl, refl)
  find_active (sending j r ∷ ws) = inr (0, sending j r, refl, refl)

  module _ (total cap : ℕ) (s : Pool R) where
    drain : (c : List (ℕ × R)) → s.channel ≡ c → 0 < length c → Movable total cap s
    drain [] e h = elim h [ ]
    drain (p ∷ ps) e h = (taken s p ps, receive p ps e refl, refl)

    move_of :
        (r : R) (i : ℕ) (w : Worker R)
        → 0 < cap
        → get_elem? s.workers i ≡ some w
        → is_active w ≡ true
        → Movable total cap s
    move_of r i idle pos e a = elim (Bool-cases s.cancelled) [
      | inl c ↦ (put s i stopped, see_cancel i e c refl, refl)
      | inr c ↦ (put s i checked, pass_check i e c refl, refl)
    ]
    move_of r i checked pos e a = elim (Bool-cases (ltb s.next total)) [
      | inl lt ↦ (claimed s i, claim i e (ltb→lt _ _ lt) refl, refl)
      | inr ge ↦ (exhausted s i, exhaust i e (ground arith) refl, refl)
    ]
    move_of r i (busy j) pos e a = (put s i (sending j r), respond i j r e refl, refl)
    move_of r i (sending j q) pos e a = elim (Bool-cases (ltb (length s.channel) cap)) [
      | inl room ↦ (sent s i j q, send i j q e (ltb→lt _ _ room) refl, refl)
      | inr full ↦ drain s.channel refl (ground arith)
    ]
    move_of r i stopped pos e a = cc

    -- A state that is not done can move, if the channel has room for one message at least.
    pub progress : R → 0 < cap → IsDone s ⊎ Movable total cap s
    progress r pos = elim (find_active s.workers) [
      | inr (i, w, e, a) ↦ inr (move_of r i w pos e a)
      | inl all ↦ drained s.channel refl all
    ]
      where
        drained :
            (c : List (ℕ × R))
            → s.channel ≡ c
            → All (λ w. w ≡ stopped) s.workers
            → IsDone s ⊎ Movable total cap s
        drained [] e all = inl (all, e)
        drained (p ∷ ps) e all = inr (taken s p ps, receive p ps e refl, refl)

  abbrev weight : Worker R → ℕ
  weight stopped = 0
  weight checked = 1
  weight idle = 2
  weight (sending j r) = 4
  weight (busy j) = 5

  -- Five for each index still to claim, and what the workers and the channel have yet to do.
  abbrev pub measure : (total : ℕ) → Pool R → ℕ
  measure total s = 5 * (total - s.next) + total_of weight s.workers + length s.channel

  pub Move-measure :
      (total cap : ℕ) {s t : Pool R} → Move total cap s t → measure total t < measure total s
  Move-measure total cap {s} (cancel e, w) = cc
  Move-measure total cap {s} (see_cancel i at_i c e, w) =
      rw e (omega (arith, total_of-set weight s.workers i idle stopped at_i))
  Move-measure total cap {s} (pass_check i at_i c e, w) =
      rw e (omega (arith, total_of-set weight s.workers i idle checked at_i))
  Move-measure total cap {s} (claim i at_i lt e, w) =
      rw e (omega (arith, total_of-set weight s.workers i checked (busy s.next) at_i))
  Move-measure total cap {s} (exhaust i at_i le e, w) =
      rw e (omega (arith, total_of-set weight s.workers i checked stopped at_i))
  Move-measure total cap {s} (respond i j r at_i e, w) =
      rw e (omega (arith, total_of-set weight s.workers i (busy j) (sending j r) at_i))
  Move-measure total cap {s} (send i j r at_i room e, w) = rw e (
      omega (
        arith,
        total_of-set weight s.workers i (sending j r) idle at_i,
        length-append {ℓ} s.channel ((j, r) ∷ []),
      ))
  Move-measure total cap {s} (receive p ps c e, w) = rw (e, c) (omega arith)

  -- The runs of moves.
  pub data Run (total cap : ℕ) (s : Pool R) : ℕ → Pool R → Type ℓ where
    rest : {n : ℕ} {t : Pool R} → n ≡ 0 → t ≡ s → Run total cap s n t
    move :
        {m n : ℕ} {t u : Pool R}
        → Run total cap s m t
        → Move total cap t u
        → n ≡ m + 1
        → Run total cap s n u

  -- From any state, a run makes at most as many moves as the measure of that state.
  pub Run-measure :
      (total cap : ℕ) {s t : Pool R} {n : ℕ}
      → Run total cap s n t
      → n + measure total t ≤ measure total s
  Run-measure total cap (rest z e) = rw (z, e) (omega arith)
  Run-measure total cap (move r m e) =
      omega (arith, Run-measure total cap r, Move-measure total cap m)
