-- ===== src/Test/Load.antt =====
-- fox-test/src/load.rs: what a load test reports. Durations are values of an ordered type; the
-- averages and rates, which are floating-point quotients, are left out.
use mathlib.Core.Path.{subst}
use rust_fox.Prelude.{
  ℕ, zero, suc, ◌+◌, ◌-◌, ◌*◌, ◌/◌, ◌≤◌, ◌<◌, ◌≡◌, refl, inl, inr, ◌⊎◌, Bool, true, false, List, [],
  ◌∷◌, ◌++◌, Option, none, some, length, length-append, get_or, min, max, if◌then◌else◌, ltb, All,
  arith,
}
use rust_fox.Prelude.Sort.{sort_by, IsSorted, sort_by-IsSorted}
use rust_fox.Prelude.Text.{Text}
use rust_fox.Test.Pool.Claims.{Reach-received}
use rust_fox.Test.Pool.{Pool, start, Reach, IsDone}

pub record LoadConfig : Type 0 where
  pub concurrency : ℕ
  pub total : ℕ

-- `clamp(lo, hi)`
abbrev clamp : (lo hi n : ℕ) → ℕ
clamp lo hi n = min (max n lo) hi

unfoldable pub workers_of : LoadConfig → ℕ
workers_of cfg = max (clamp 1 500 cfg.concurrency) 1

unfoldable pub total_of : LoadConfig → ℕ
total_of cfg = max (clamp 1 100000 cfg.total) 1

-- Whatever the configuration says, there are 1 to 500 workers and 1 to 100000 requests.
pub workers_of_bounds :
    (cfg : LoadConfig)
    → (1 ≤ workers_of cfg) × (workers_of cfg ≤ 500) × (1 ≤ total_of cfg) × (total_of cfg ≤ 100000)
unfolding workers_of total_of
workers_of_bounds cfg = (omega arith, omega arith, omega arith, omega arith)

pub record Sample (D : Type 0) : Type 0 where
  pub ok : Bool
  pub duration : D
  pub err : Option Text

-- The variables of the receiving loop.
pub record Tally (D : Type 0) : Type 0 where
  pub samples : List D
  pub ok : ℕ
  pub failed : ℕ
  pub errors : List Text
  pub done : ℕ

abbrev pub empty_tally : {D : Type 0} → Tally D
empty_tally = record { samples = []; ok = 0; failed = 0; errors = []; done = 0 }

abbrev pub note_error : List Text → Option Text → List Text
note_error errors none = errors
note_error errors (some e) = if ltb (length errors) 5 then errors ++ e ∷ [] else errors

module _ {D : Type 0} where
  unfoldable pub add_sample : Tally D → Sample D → Tally D
  add_sample t s = record {
    samples = t.samples ++ s.duration ∷ [];
    ok = if s.ok then t.ok + 1 else t.ok;
    failed = if s.ok then t.failed else t.failed + 1;
    errors = note_error t.errors s.err;
    done = t.done + 1;
  }

  unfoldable pub add_samples : Tally D → List (ℕ × Sample D) → Tally D
  unfolding add_sample
  add_samples t [] = t
  add_samples t ((i, s) ∷ ss) = add_samples (add_sample t s) ss

  module _ (zero_ms : D) where
    -- `sorted[min(len * q / 100, len - 1)]`
    unfoldable pub percentile : List D → ℕ → D
    percentile [] q = zero_ms
    percentile (d ∷ ds) q =
        get_or (d ∷ ds) (min (length (d ∷ ds) * q / 100) (length (d ∷ ds) - 1)) zero_ms

pub record LoadResult (D : Type 0) : Type 0 where
  pub total : ℕ
  pub ok : ℕ
  pub failed : ℕ
  pub p50 : D
  pub p90 : D
  pub p99 : D
  pub errors : List Text
  pub cancelled : Bool

module _ {D : Type 0} (le : D → D → Bool) (zero_ms : D) where
  -- The result, from what the receiver got and the token's state at the end.
  unfoldable pub load_result : Pool (Sample D) → LoadResult D
  unfolding add_samples percentile
  load_result s =
      let t = add_samples empty_tally s.received in
      let sorted = sort_by le t.samples in
      record {
        total = t.ok + t.failed;
        ok = t.ok;
        failed = t.failed;
        p50 = percentile zero_ms sorted 50;
        p90 = percentile zero_ms sorted 90;
        p99 = percentile zero_ms sorted 99;
        errors = t.errors;
        cancelled = s.cancelled;
      }

-- Every sample is counted once, as passed or failed; at most five errors are kept.
pub record IsTallied {D : Type 0} (n : ℕ) (t : Tally D) : Type 0 where
  pub counted : t.ok + t.failed ≡ n
  pub all_done : t.done ≡ n
  pub durations : length t.samples ≡ n
  pub few_errors : length t.errors ≤ 5

length-note_error :
    (errors : List Text) (e : Option Text) → length errors ≤ 5 → length (note_error errors e) ≤ 5
length-note_error errors none h = h
length-note_error errors (some e) h = ground (arith, length-append {0} errors (e ∷ []))

module _ {D : Type 0} where
  add_sample-IsTallied :
      (t : Tally D) (s : Sample D) (n : ℕ) → IsTallied n t → IsTallied (suc n) (add_sample t s)
  unfolding add_sample
  add_sample-IsTallied t s n h = record {
    counted = ground (arith, h.counted);
    all_done = omega (arith, h.all_done);
    durations = omega (arith, h.durations, length-append {0} t.samples (s.duration ∷ []));
    few_errors = length-note_error t.errors s.err h.few_errors;
  }

  add_samples-IsTallied :
      (ss : List (ℕ × Sample D)) (t : Tally D) (n : ℕ)
      → IsTallied n t
      → IsTallied (n + length ss) (add_samples t ss)
  unfolding add_samples
  add_samples-IsTallied [] t n h = subst (λ m. IsTallied m t) (omega arith) h
  add_samples-IsTallied ((i, s) ∷ ss) t n h =
      subst (λ m. IsTallied m (add_samples (add_sample t s) ss)) (omega arith)
        (add_samples-IsTallied ss (add_sample t s) (suc n) (add_sample-IsTallied t s n h))

-- However the workers interleave and whenever the token fires, a load test that has ended reports
-- as its total the requests that passed and those that failed, which are the requests claimed
-- below the configured total; if it was not cancelled these are all of them; and it keeps at most
-- five errors.
pub load_result_total :
    {D : Type 0} (le : D → D → Bool) (zero_ms : D) (cfg : LoadConfig) (room : ℕ)
    {s : Pool (Sample D)}
    → Reach (total_of cfg) room (start (workers_of cfg)) s
    → IsDone s
    → ((load_result le zero_ms s).total
        ≡ (load_result le zero_ms s).ok + (load_result le zero_ms s).failed)
      × ((load_result le zero_ms s).total ≡ min s.next (total_of cfg))
      × (((load_result le zero_ms s).cancelled ≡ true)
          ⊎ ((load_result le zero_ms s).total ≡ total_of cfg))
      × (length (load_result le zero_ms s).errors ≤ 5)
unfolding load_result
load_result_total {D} le zero_ms cfg room {s} r d =
    let tally =
      add_samples-IsTallied s.received empty_tally 0
        (record { counted = refl; all_done = refl; durations = refl; few_errors = omega arith }) in
    let (once, amount, ended) =
      Reach-received (total_of cfg) room (workers_of cfg) (omega (arith, workers_of_bounds cfg)) r
        d in
    (
      refl,
      omega (arith, tally.counted, amount),
      finished s ended (omega (arith, tally.counted, amount)),
      tally.few_errors,
    )
  where
    finished :
        (t : Pool (Sample D))
        → (t.cancelled ≡ true) ⊎ (total_of cfg ≤ t.next)
        → (load_result le zero_ms t).total ≡ min t.next (total_of cfg)
        → (t.cancelled ≡ true) ⊎ ((load_result le zero_ms t).total ≡ total_of cfg)
    finished t (inl c) e = inl c
    finished t (inr l) e = inr (omega arith)

module _ {D : Type 0} (le : D → D → Bool) (zero_ms : D) (reflexive : (x : D) → le x x ≡ true) where
  All-get_or :
      (P : D → Type 0) (ds : List D) (i : ℕ) → i < length ds → All P ds → P (get_or ds i zero_ms)
  All-get_or P [] i h k = elim h [ ]
  All-get_or P (d ∷ ds) zero h (p, k) = p
  All-get_or P (d ∷ ds) (suc i) h (p, k) = All-get_or P ds i (omega arith) k

  get_or_mono :
      (ds : List D) (i j : ℕ)
      → IsSorted le ds
      → i ≤ j
      → j < length ds
      → le (get_or ds i zero_ms) (get_or ds j zero_ms) ≡ true
  get_or_mono [] i j s h k = elim k [ ]
  get_or_mono (d ∷ ds) zero zero s h k = reflexive d
  get_or_mono (d ∷ ds) zero (suc j) (b, s) h k =
      All-get_or (λ x. le d x ≡ true) ds j (omega arith) b
  get_or_mono (d ∷ ds) (suc i) zero s h k = absurd (omega arith)
  get_or_mono (d ∷ ds) (suc i) (suc j) (b, s) h k = get_or_mono ds i j s (omega arith) (omega arith)

  -- On sorted durations a higher percentile is never below a lower one.
  pub percentile_mono :
      (ds : List D) (p q : ℕ)
      → IsSorted le ds
      → p ≤ q
      → le (percentile zero_ms ds p) (percentile zero_ms ds q) ≡ true
  unfolding percentile
  percentile_mono [] p q s h = reflexive zero_ms
  percentile_mono (d ∷ ds) p q s h = get_or_mono (d ∷ ds) _ _ s (grind arith) (omega arith)

  -- The median of the reported durations is not above their 90th percentile, and that one not
  -- above their 99th, for any samples and any total order on durations.
  pub load_result_percentiles :
      ((a b c : D) → le a b ≡ true → le b c ≡ true → le a c ≡ true)
      → ((a b : D) → le a b ≡ false → le b a ≡ true)
      → (s : Pool (Sample D))
      → (le (load_result le zero_ms s).p50 (load_result le zero_ms s).p90 ≡ true)
        × (le (load_result le zero_ms s).p90 (load_result le zero_ms s).p99 ≡ true)
  unfolding load_result
  load_result_percentiles trans total s =
      let samples = (add_samples empty_tally s.received).samples in
      let sorted = sort_by-IsSorted le total trans samples in
      (
        percentile_mono (sort_by le samples) 50 90 sorted (omega arith),
        percentile_mono (sort_by le samples) 90 99 sorted (omega arith),
      )
