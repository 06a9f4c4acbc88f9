-- ===== src/Http/Ws/Backoff.antt =====
-- The delay before a reconnection is the exponential one, capped: no overflow shows.
use rust_fox.Prelude.{
  ℕ, zero, suc, ◌-◌, ◌*◌, ◌^◌, ◌≤◌, ◌<◌, min, ◌≡◌, false, inl, inr, ltb, Bool-cases, arith,
}
use native.Mathlib.Nat.{mul-le-mul_right, pow-le-pow_right, mod-eq_of_lt}
use rust_fox.Http.Ws.{WsOptions, u64_max, backoff_delay}

-- Capping at 2^64 - 1 before capping at a smaller number makes no difference.
capped :
    (base p top : ℕ)
    → 2 ^ 64 ≤ p
    → top < 2 ^ 64
    → min (min (base * u64_max) u64_max) top ≡ min (base * p) top
capped zero p top h k = omega arith
capped (suc n) p top h k =
    let more : 1 * p ≤ suc n * p = mul-le-mul_right p (omega arith) in omega arith

within : (n top : ℕ) → top < 2 ^ 64 → min (min n u64_max) top ≡ min n top
within n top k = omega arith

-- With durations below 2^64 milliseconds, the delay of each attempt is the base delay doubled for
-- every attempt before it, and at most the maximal delay; the saturation does not change it.
pub backoff_delay_lem :
    (o : WsOptions) (attempt : ℕ)
    → o.backoff_base < 2 ^ 64
    → o.backoff_max < 2 ^ 64
    → backoff_delay o attempt ≡ min (o.backoff_base * 2 ^ (attempt - 1)) o.backoff_max
unfolding backoff_delay
backoff_delay_lem o attempt h k = elim (Bool-cases (ltb (attempt - 1) 64)) [
  | inl small ↦ rw (small, mod-eq_of_lt h, mod-eq_of_lt k) (within _ o.backoff_max k)
  | inr large ↦
      rw (large, mod-eq_of_lt h, mod-eq_of_lt k)
        (capped o.backoff_base (2 ^ (attempt - 1)) o.backoff_max (bigger large) k)
]
  where
    bigger : ltb (attempt - 1) 64 ≡ false → 2 ^ 64 ≤ 2 ^ (attempt - 1)
    bigger large = pow-le-pow_right {n = 2} (omega arith) {i = 64} {j = attempt - 1} (ground arith)
