-- ===== src/Test/Collection.antt =====
-- fox-test/src/runner.rs: a collection run gathers its results in the order of the input, and the
-- order in which endpoints are run.
use mathlib.Core.Path.{subst, ap₂}
use rust_fox.Prelude.{
  ℕ, zero, suc, ◌+◌, ◌*◌, ◌≤◌, ◌<◌, ◌≡◌, refl, sym, ap, ◌∙◌, inl, inr, ◌⊎◌, Bool, true, false, ◌&&◌,
  List, [], ◌∷◌, Option, none, some, length, get_elem?, set, length-set, replicate,
  length-replicate, min, max, if◌then◌else◌, eqb, ltb, ltb→lt, Bool-cases, Option-cases, arith,
  list_eq, nat_eq,
}
use rust_fox.Prelude.Dict.{or_else}
use rust_fox.Prelude.Fallible.{Fallible, returns, panics, ◌>>=◌}
use rust_fox.Test.Pool.Counts.{count, one_if}
use rust_fox.Test.Pool.Claims.{Reach-received}
use rust_fox.Test.Pool.{Pool, start, Reach, IsDone}

-- `options.concurrency.unwrap_or(5).clamp(1, 64).min(total)`
unfoldable pub workers_of : Option ℕ → (total : ℕ) → ℕ
workers_of none total = min (min (max 5 1) 64) total
workers_of (some n) total = min (min (max n 1) 64) total

workers_of_pos : (concurrency : Option ℕ) (total : ℕ) → 0 < workers_of concurrency (suc total)
unfolding workers_of
workers_of_pos none total = omega arith
workers_of_pos (some n) total = omega arith

module _ {R : Type 0} where
  -- `ordered[idx] = Some(result)`, for each message.
  unfoldable pub place_all : List (Option R) → List (ℕ × R) → Fallible (List (Option R))
  place_all ordered [] = returns ordered
  place_all ordered ((idx, result) ∷ rs) =
      let placed = place_all (set ordered idx (some result)) rs in
      if ltb idx (length ordered) then placed else panics

  -- `ordered.into_iter().flatten()`
  unfoldable pub present : List (Option R) → List R
  present [] = []
  present (none ∷ os) = present os
  present (some r ∷ os) = r ∷ present os

  -- The results and the mark of cancelling, from what was received; with no endpoints there is an
  -- early return, which does not read the token.
  unfoldable pub collection_result : (total : ℕ) → Pool R → Fallible (List R × Bool)
  unfolding place_all present
  collection_result zero s = returns ([], false)
  collection_result (suc n) s = do
    ordered ← place_all (replicate (suc n) none) s.received
    returns (present ordered, s.cancelled)

  -- The last result received for an index.
  abbrev pub result_of : ℕ → List (ℕ × R) → Option R
  result_of k [] = none
  result_of k ((i, r) ∷ rs) = or_else (result_of k rs) (if eqb i k then some r else none)

  abbrev if_some : Option R → List R → List R
  if_some none rs = rs
  if_some (some r) rs = r ∷ rs

  -- The results of `n` indices from `k` on, those that have one.
  abbrev pub results_from : (k n : ℕ) → List (ℕ × R) → List R
  results_from k zero rs = []
  results_from k (suc n) rs = if_some (result_of k rs) (results_from (suc k) n rs)

  get_elem?-set :
      (os : List (Option R)) (i k : ℕ) (o : Option R)
      → i < length os
      → get_elem? (set os i o) k ≡ (if eqb i k then some o else get_elem? os k)
  get_elem?-set [] i k o h = elim h [ ]
  get_elem?-set (x ∷ os) zero zero o h = refl
  get_elem?-set (x ∷ os) zero (suc k) o h = ground arith
  get_elem?-set (x ∷ os) (suc i) zero o h = ground arith
  get_elem?-set (x ∷ os) (suc i) (suc k) o h = ground (arith, get_elem?-set os i k o (omega arith))

  abbrev InRange : (n : ℕ) → List (ℕ × R) → Type 0
  InRange n [] = Unit
  InRange n ((i, r) ∷ rs) = (i < n) × InRange n rs

  -- With every index in range nothing panics, and each place holds the last result of its index.
  abbrev Placed : List (Option R) → List (ℕ × R) → Type 0
  Placed os rs =
      (ordered : List (Option R)) × (place_all os rs ≡ returns ordered)
      × (length ordered ≡ length os)
      × ((k : ℕ) (o : Option R)
          → get_elem? os k ≡ some o
          → get_elem? ordered k ≡ some (or_else (result_of k rs) o))

  or_else-or_else : (a : Option R) (o : Option R) → or_else (or_else a none) o ≡ or_else a o
  or_else-or_else none o = refl
  or_else-or_else (some r) o = refl

  or_else-some :
      (a : Option R) (r : R) (o : Option R) → or_else (or_else a (some r)) o ≡ or_else a (some r)
  or_else-some none r o = refl
  or_else-some (some q) r o = refl

  place_all-Placed :
      (rs : List (ℕ × R)) (os : List (Option R)) → InRange (length os) rs → Placed os rs
  unfolding place_all
  place_all-Placed [] os h = (os, refl, refl, λ k o e. e)
  place_all-Placed ((i, r) ∷ rs) os (lt, h) =
      let (ordered, run, len, at_k) =
        place_all-Placed rs (set os i (some r))
          (subst (λ n. InRange n rs) (sym (length-set os i (some r))) h) in
      (
        ordered,
        ground arith,
        len ∙ length-set os i (some r),
        λ k o e. elim (Bool-cases (eqb i k)) [
          | inl same ↦ rw same (
              at_k k (some r) (get_elem?-set os i k (some r) lt ∙ rw same refl)
              ∙ ap some (sym (or_else-some (result_of k rs) r o)))
          | inr apart ↦ rw apart (
              at_k k o (get_elem?-set os i k (some r) lt ∙ rw apart e)
              ∙ ap some (sym (or_else-or_else (result_of k rs) o)))
        ],
      )

  InRange-count :
      (total : ℕ) (rs : List (ℕ × R)) → ((k : ℕ) → total ≤ k → count k rs ≡ 0) → InRange total rs
  InRange-count total [] h = tt
  InRange-count total ((i, r) ∷ rs) h = elim (Bool-cases (ltb i total)) [
    | inl below ↦ (ltb→lt i total below, InRange-count total rs (λ k le. ground (arith, h k le)))
    | inr above ↦ absurd (ground (arith, h i (ground arith)))
  ]

  get_elem?-replicate : (n k : ℕ) (o : Option R) → k < n → get_elem? (replicate n o) k ≡ some o
  get_elem?-replicate zero k o h = absurd (omega arith)
  get_elem?-replicate (suc n) zero o h = refl
  get_elem?-replicate (suc n) (suc k) o h = get_elem?-replicate n k o (omega arith)

  abbrev unwrapped : Option (Option R) → Option R
  unwrapped none = none
  unwrapped (some o) = o

  present-cons : (o : Option R) (os : List (Option R)) → present (o ∷ os) ≡ if_some o (present os)
  unfolding present
  present-cons none os = refl
  present-cons (some r) os = refl

  present-results_from :
      (rs : List (ℕ × R)) (n k : ℕ) (os : List (Option R))
      → length os ≡ n
      → ((j : ℕ) → j < n → get_elem? os j ≡ some (result_of (k + j) rs))
      → present os ≡ results_from k n rs
  unfolding present
  present-results_from rs zero k [] e h = refl
  present-results_from rs zero k (o ∷ os) e h = absurd (omega arith)
  present-results_from rs (suc n) k [] e h = absurd (omega arith)
  present-results_from rs (suc n) k (o ∷ os) e h =
      present-cons o os
      ∙ ap₂ if_some (ap unwrapped (h 0 (omega arith)) ∙ ap (λ i. result_of i rs) (omega arith)) (
          present-results_from rs n (suc k) os (omega arith)
            (λ j lt. h (suc j) (omega arith) ∙ ap (λ i. some (result_of i rs)) (omega arith)))

  result_of-count :
      (k : ℕ) (rs : List (ℕ × R)) → 1 ≤ count k rs → (r : R) × (result_of k rs ≡ some r)
  result_of-count k [] h = absurd (omega arith)
  result_of-count k ((i, r) ∷ rs) h = elim (Option-cases (result_of k rs)) [
    | inr (q, e) ↦ (q, rw e refl)
    | inl e ↦ elim (Bool-cases (eqb i k)) [
      | inl same ↦ (r, rw (e, same) refl)
      | inr apart ↦ let (q, e') = result_of-count k rs (ground (arith, h)) in absurd (cc (e, e'))
    ]
  ]

  length-results_from :
      (rs : List (ℕ × R)) (n k : ℕ)
      → ((j : ℕ) → j < n → 1 ≤ count (k + j) rs)
      → length (results_from k n rs) ≡ n
  length-results_from rs zero k h = refl
  length-results_from rs (suc n) k h =
      let (r, e) =
        result_of-count k rs (subst (λ i. 1 ≤ count i rs) (omega arith) (h 0 (omega arith))) in
      rw e (
        omega (
          arith,
          length-results_from rs n (suc k)
              (λ j lt. subst (λ i. 1 ≤ count i rs) (omega arith) (h (suc j) (omega arith))),
        ))

  or_else-none : (o : Option R) → or_else o none ≡ o
  or_else-none none = refl
  or_else-none (some q) = refl

  complete :
      (total : ℕ) (rs : List (ℕ × R)) (next : ℕ) (c : Bool)
      → ((k : ℕ) → count k rs ≡ one_if (ltb k next && ltb k total))
      → (c ≡ true) ⊎ (total ≤ next)
      → (c ≡ true) ⊎ (length (results_from 0 total rs) ≡ total)
  complete total rs next c once (inl e) = inl e
  complete total rs next c once (inr le) =
      inr (length-results_from rs total 0 (λ j lt. ground (arith, once j)))

  -- However the workers interleave and whenever the token fires, a run of a non-empty collection
  -- that has ended does not panic, and returns what was received in the order of the input, with
  -- the state of the token; if it was not cancelled there is one result for each endpoint.
  pub collection_result-in_order :
      (concurrency : Option ℕ) (n : ℕ) {s : Pool R}
      → Reach
          (suc n)
          (workers_of concurrency (suc n) * 2)
          (start (workers_of concurrency (suc n)))
          s
      → IsDone s
      → (collection_result (suc n) s ≡ returns (results_from 0 (suc n) s.received, s.cancelled))
        × ((s.cancelled ≡ true) ⊎ (length (results_from 0 (suc n) s.received) ≡ suc n))
  unfolding collection_result
  collection_result-in_order concurrency n {s} r d =
      let (once, amount, ended) = Reach-received (suc n) _ _ (workers_of_pos concurrency n) r d in
      let inside = InRange-count (suc n) s.received (λ k le. ground (arith, once k)) in
      let (ordered, run, len, at_k) =
        place_all-Placed s.received (replicate (suc n) none)
          (subst (λ m. InRange m s.received) (sym (length-replicate (suc n) none)) inside) in
      let listed =
        present-results_from s.received (suc n) 0 ordered (len ∙ length-replicate (suc n) none)
          (λ j lt.
            at_k j none (get_elem?-replicate (suc n) j none lt)
            ∙ ap some (
                or_else-none (result_of j s.received)
                ∙ ap (λ i. result_of i s.received) (omega arith))) in
      (
        rw run (ap (λ os. returns (os, s.cancelled)) listed),
        complete (suc n) s.received s.next s.cancelled once ended,
      )
