-- ===== src/Test/Pool/Claims.antt =====
-- Every index is claimed once: it is with one worker, in the channel once, or received once.
use mathlib.Core.Path.{subst}
use rust_fox.Prelude.{
  ℕ, zero, suc, ◌+◌, ◌<◌, ◌≤◌, ◌≡◌, refl, sym, ap, ◌∙◌, inl, inr, ◌⊎◌, true, ◌&&◌, List, [], ◌∷◌,
  some, length, length-append, length-set, length-replicate, min, get_elem?, set, replicate, All,
  ltb, arith,
}
use rust_fox.Test.Pool.Counts.{
  one_if, claim_count, exhaust_count, same_stops, later_stops, holds, is_stopped, carries, total_of,
  count, total_of-set, count-append,
}
use rust_fox.Test.Pool.{
  Worker, idle, checked, stopped, busy, sending, Pool, start, put, claimed, exhausted, sent, taken,
  Step, cancel, see_cancel, pass_check, claim, exhaust, respond, send, receive, Reach, here,
  then_step, IsDone,
}

module _ {ℓ} {R : Type ℓ} where
  -- How often index `k` is out of the counter: with workers, in the channel, received.
  abbrev pub occurrences : ℕ → Pool R → ℕ
  occurrences k s = total_of (holds k) s.workers + count k s.channel + count k s.received

  -- An index has left the counter once if it is below the counter and the total, and else never.
  pub record IsFair (total : ℕ) (s : Pool R) : Type ℓ where
    pub once : (k : ℕ) → occurrences k s ≡ one_if (ltb k s.next && ltb k total)
    pub amount :
        total_of carries s.workers + length s.channel + length s.received ≡ min s.next total
    pub bounded : s.next ≤ total + total_of is_stopped s.workers
    pub ended : (total_of is_stopped s.workers ≡ 0) ⊎ ((s.cancelled ≡ true) ⊎ (total ≤ s.next))

  module _ (total cap : ℕ) {s : Pool R} (h : IsFair total s) where
    replaced :
        (i : ℕ) (old new : Worker R) (f : Worker R → ℕ)
        → get_elem? s.workers i ≡ some old
        → total_of f (set s.workers i new) + f old ≡ total_of f s.workers + f new
    replaced i old new f e = total_of-set f s.workers i old new e

    see_cancel-IsFair :
        (i : ℕ)
        → get_elem? s.workers i ≡ some idle
        → s.cancelled ≡ true
        → IsFair total (put s i stopped)
    see_cancel-IsFair i e c = record {
      once = λ k. omega (arith, h.once k, replaced i idle stopped (holds k) e);
      amount = omega (arith, h.amount, replaced i idle stopped carries e);
      bounded = omega (arith, h.bounded, replaced i idle stopped is_stopped e);
      ended = inr (inl c);
    }

    pass_check-IsFair : (i : ℕ) → get_elem? s.workers i ≡ some idle → IsFair total (put s i checked)
    pass_check-IsFair i e = record {
      once = λ k. omega (arith, h.once k, replaced i idle checked (holds k) e);
      amount = omega (arith, h.amount, replaced i idle checked carries e);
      bounded = omega (arith, h.bounded, replaced i idle checked is_stopped e);
      ended = same_stops _ (omega (arith, replaced i idle checked is_stopped e)) h.ended;
    }

    claim-IsFair :
        (i : ℕ) → get_elem? s.workers i ≡ some checked → s.next < total → IsFair total (claimed s i)
    claim-IsFair i e lt = record {
      once = λ k.
          claim_count k s.next total _ _ _ _ lt (h.once k)
            (replaced i checked (busy s.next) (holds k) e);
      amount = omega (arith, h.amount, replaced i checked (busy s.next) carries e);
      bounded = omega (arith, h.bounded, replaced i checked (busy s.next) is_stopped e);
      ended =
          later_stops _ s.next (omega (arith, replaced i checked (busy s.next) is_stopped e))
            h.ended;
    }

    exhaust-IsFair :
        (i : ℕ)
        → get_elem? s.workers i ≡ some checked
        → total ≤ s.next
        → IsFair total (exhausted s i)
    exhaust-IsFair i e le = record {
      once = λ k.
          exhaust_count k s.next total _ _ _ _ le (h.once k)
            (replaced i checked stopped (holds k) e);
      amount = omega (arith, h.amount, replaced i checked stopped carries e);
      bounded = omega (arith, h.bounded, replaced i checked stopped is_stopped e);
      ended = inr (inr (omega arith));
    }

    respond-IsFair :
        (i j : ℕ) (r : R)
        → get_elem? s.workers i ≡ some (busy j)
        → IsFair total (put s i (sending j r))
    respond-IsFair i j r e = record {
      once = λ k. omega (arith, h.once k, replaced i (busy j) (sending j r) (holds k) e);
      amount = omega (arith, h.amount, replaced i (busy j) (sending j r) carries e);
      bounded = omega (arith, h.bounded, replaced i (busy j) (sending j r) is_stopped e);
      ended = same_stops _ (omega (arith, replaced i (busy j) (sending j r) is_stopped e)) h.ended;
    }

    send-IsFair :
        (i j : ℕ) (r : R) → get_elem? s.workers i ≡ some (sending j r) → IsFair total (sent s i j r)
    send-IsFair i j r e = record {
      once = λ k. omega (
        arith,
        h.once k,
        replaced i (sending j r) idle (holds k) e,
        count-append k s.channel ((j, r) ∷ []),
      );
      amount = omega (
        arith,
        h.amount,
        replaced i (sending j r) idle carries e,
        length-append {ℓ} s.channel ((j, r) ∷ []),
      );
      bounded = omega (arith, h.bounded, replaced i (sending j r) idle is_stopped e);
      ended = same_stops _ (omega (arith, replaced i (sending j r) idle is_stopped e)) h.ended;
    }

    receive-IsFair :
        (p : ℕ × R) (ps : List (ℕ × R)) → s.channel ≡ p ∷ ps → IsFair total (taken s p ps)
    receive-IsFair p ps e = record {
      once = λ k. omega (arith, h.once k, ap (count k) e, count-append k s.received (p ∷ []));
      amount = omega (arith, h.amount, ap length e, length-append {ℓ} s.received (p ∷ []));
      bounded = h.bounded;
      ended = h.ended;
    }

    cancel-IsFair : IsFair total (record s { cancelled = true })
    cancel-IsFair = record {
      once = h.once;
      amount = h.amount;
      bounded = h.bounded;
      ended = inr (inl refl);
    }

  -- Every step keeps the indices fair.
  pub Step-IsFair :
      (total cap : ℕ) {s t : Pool R} → Step total cap s t → IsFair total s → IsFair total t
  Step-IsFair total cap (cancel e) h = subst (IsFair total) (sym e) (cancel-IsFair total cap h)
  Step-IsFair total cap (see_cancel i w c e) h =
      subst (IsFair total) (sym e) (see_cancel-IsFair total cap h i w c)
  Step-IsFair total cap (pass_check i w c e) h =
      subst (IsFair total) (sym e) (pass_check-IsFair total cap h i w)
  Step-IsFair total cap (claim i w lt e) h =
      subst (IsFair total) (sym e) (claim-IsFair total cap h i w lt)
  Step-IsFair total cap (exhaust i w le e) h =
      subst (IsFair total) (sym e) (exhaust-IsFair total cap h i w le)
  Step-IsFair total cap (respond i j r w e) h =
      subst (IsFair total) (sym e) (respond-IsFair total cap h i j r w)
  Step-IsFair total cap (send i j r w room e) h =
      subst (IsFair total) (sym e) (send-IsFair total cap h i j r w)
  Step-IsFair total cap (receive p ps c e) h =
      subst (IsFair total) (sym e) (receive-IsFair total cap h p ps c)

module _ {ℓ} (R : Type ℓ) where
  start_counts :
      (n k : ℕ)
      → (total_of (holds {R = R} k) (replicate n idle) ≡ 0)
        × (total_of (carries {R = R}) (replicate n idle) ≡ 0)
        × (total_of (is_stopped {R = R}) (replicate n idle) ≡ 0)
  start_counts zero k = (refl, refl, refl)
  start_counts (suc n) k = (
    omega (arith, start_counts n k),
    omega (arith, start_counts n k),
    omega (arith, start_counts n k),
  )

  start-IsFair : (total n : ℕ) → IsFair total (start {R = R} n)
  start-IsFair total n = record {
    once = λ k. ground (arith, start_counts n k);
    amount = omega (arith, start_counts n 0);
    bounded = omega arith;
    ended = inl (start_counts n 0).2;
  }

module _ {ℓ} {R : Type ℓ} where
  -- In every state that a pool of `n` workers reaches, each index below the counter and the total
  -- is in exactly one place, with a worker, in the channel or received, and no other index is in
  -- any; the counter is above the total by no more than the workers that stopped; and if one
  -- stopped, the token fired or the counter reached the total.
  pub Reach-IsFair : (total cap n : ℕ) {s : Pool R} → Reach total cap (start n) s → IsFair total s
  Reach-IsFair total cap n here = start-IsFair R total n
  Reach-IsFair total cap n (then_step r st) = Step-IsFair total cap st (Reach-IsFair total cap n r)

  stopped_counts :
      (k : ℕ) (ws : List (Worker R))
      → All (λ w. w ≡ stopped) ws
      → (total_of (holds k) ws ≡ 0)
        × (total_of carries ws ≡ 0)
        × (total_of is_stopped ws ≡ length ws)
  stopped_counts k [] h = (refl, refl, refl)
  stopped_counts k (w ∷ ws) (e, h) =
      let (a, b, c) = stopped_counts k ws h in rw e (omega arith, omega arith, omega arith)

  Step-workers :
      (total cap : ℕ) {s t : Pool R} → Step total cap s t → length t.workers ≡ length s.workers
  Step-workers total cap {s} (cancel e) = rw e refl
  Step-workers total cap {s} (see_cancel i w c e) = rw e (length-set s.workers i _)
  Step-workers total cap {s} (pass_check i w c e) = rw e (length-set s.workers i _)
  Step-workers total cap {s} (claim i w lt e) = rw e (length-set s.workers i _)
  Step-workers total cap {s} (exhaust i w le e) = rw e (length-set s.workers i _)
  Step-workers total cap {s} (respond i j r w e) = rw e (length-set s.workers i _)
  Step-workers total cap {s} (send i j r w room e) = rw e (length-set s.workers i _)
  Step-workers total cap {s} (receive p ps c e) = rw e refl

  length-workers :
      (total cap n : ℕ) {s : Pool R} → Reach total cap (start n) s → length s.workers ≡ n
  length-workers total cap n here = length-replicate n idle
  length-workers total cap n (then_step r st) =
      Step-workers total cap st ∙ length-workers total cap n r

  -- A pool of at least one worker that is done has received each claimed index below the total
  -- once and no other; if it was not cancelled, it has received every index below the total.
  pub Reach-received :
      (total cap n : ℕ) {s : Pool R}
      → 0 < n
      → Reach total cap (start n) s
      → IsDone s
      → ((k : ℕ) → count k s.received ≡ one_if (ltb k s.next && ltb k total))
        × (length s.received ≡ min s.next total)
        × ((s.cancelled ≡ true) ⊎ (total ≤ s.next))
  Reach-received total cap n {s} pos r (all_stopped, drained) =
      let fair = Reach-IsFair total cap n r in
      (
        λ k.
            omega
              (arith, fair.once k, stopped_counts k s.workers all_stopped, ap (count k) drained),
        omega (arith, fair.amount, stopped_counts 0 s.workers all_stopped, ap length drained),
        some_stopped s fair.ended
            (omega (arith, stopped_counts 0 s.workers all_stopped, length-workers total cap n r)),
      )
    where
      some_stopped :
          (t : Pool R)
          → (total_of is_stopped t.workers ≡ 0) ⊎ ((t.cancelled ≡ true) ⊎ (total ≤ t.next))
          → 0 < total_of is_stopped t.workers
          → (t.cancelled ≡ true) ⊎ (total ≤ t.next)
      some_stopped t (inl z) lt = absurd (omega arith)
      some_stopped t (inr h) lt = h
