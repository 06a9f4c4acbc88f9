-- ===== src/Test/Pool.antt =====
-- The worker pool that `run_load_with` (fox-test/src/load.rs) and `run_collection`
-- (fox-test/src/runner.rs) both run: a fixed number of tasks, an atomic counter that hands out
-- indices, a bounded channel, and a receiver. Tasks interleave in any order, a request may end with
-- any result, and the cancel token may fire at any time; the channel is first in, first out, and
-- its receiver lives as long as the loop, so a send does not fail.
pub mod Counts
pub mod Claims
pub mod Progress
use rust_fox.Prelude.{
  ℕ, zero, suc, ◌+◌, ◌<◌, ◌≤◌, ◌≡◌, Bool, true, false, List, [], ◌∷◌, ◌++◌, Option, some, length,
  get_elem?, set, replicate, All,
}

-- Where a task stands in its loop: before the token is read, behind that, with an index claimed,
-- with a result to send, or out of the loop.
pub data Worker {ℓ} (R : Type ℓ) : Type ℓ where
  idle checked stopped : Worker R
  busy : ℕ → Worker R
  sending : ℕ → R → Worker R

pub record Pool {ℓ} (R : Type ℓ) : Type ℓ where
  pub next : ℕ
  pub workers : List (Worker R)
  pub channel : List (ℕ × R)
  pub received : List (ℕ × R)
  pub cancelled : Bool

abbrev pub start {ℓ} : {R : Type ℓ} → ℕ → Pool R
start n = record {
  next = 0;
  workers = replicate n idle;
  channel = [];
  received = [];
  cancelled = false;
}

module _ {ℓ} {R : Type ℓ} where
  abbrev pub put : Pool R → ℕ → Worker R → Pool R
  put s i w = record s { workers = set s.workers i w }

  -- The states behind the steps.
  abbrev pub claimed : Pool R → ℕ → Pool R
  claimed s i = record (put s i (busy s.next)) { next = s.next + 1 }

  abbrev pub exhausted : Pool R → ℕ → Pool R
  exhausted s i = record (put s i stopped) { next = s.next + 1 }

  abbrev pub sent : Pool R → ℕ → ℕ → R → Pool R
  sent s i j r = record (put s i idle) { channel = s.channel ++ (j, r) ∷ [] }

  abbrev pub taken : Pool R → ℕ × R → List (ℕ × R) → Pool R
  taken s p ps = record s { channel = ps; received = s.received ++ p ∷ [] }

pub data Step {ℓ} {R : Type ℓ} (total cap : ℕ) (s : Pool R) : Pool R → Type ℓ where
  cancel : {t : Pool R} → t ≡ record s { cancelled = true } → Step total cap s t
  -- `if cancel.is_cancelled() { break }`
  see_cancel :
      {t : Pool R} (i : ℕ)
      → get_elem? s.workers i ≡ some idle
      → s.cancelled ≡ true
      → t ≡ put s i stopped
      → Step total cap s t
  pass_check :
      {t : Pool R} (i : ℕ)
      → get_elem? s.workers i ≡ some idle
      → s.cancelled ≡ false
      → t ≡ put s i checked
      → Step total cap s t
  -- `let idx = next.fetch_add(1)`, below the total or not
  claim :
      {t : Pool R} (i : ℕ)
      → get_elem? s.workers i ≡ some checked
      → s.next < total
      → t ≡ claimed s i
      → Step total cap s t
  exhaust :
      {t : Pool R} (i : ℕ)
      → get_elem? s.workers i ≡ some checked
      → total ≤ s.next
      → t ≡ exhausted s i
      → Step total cap s t
  -- the request or the endpoint's run ends
  respond :
      {t : Pool R} (i j : ℕ) (r : R)
      → get_elem? s.workers i ≡ some (busy j)
      → t ≡ put s i (sending j r)
      → Step total cap s t
  -- `tx.send(…)`, once the channel has room
  send :
      {t : Pool R} (i j : ℕ) (r : R)
      → get_elem? s.workers i ≡ some (sending j r)
      → length s.channel < cap
      → t ≡ sent s i j r
      → Step total cap s t
  -- `rx.recv()`
  receive :
      {t : Pool R} (p : ℕ × R) (ps : List (ℕ × R))
      → s.channel ≡ p ∷ ps
      → t ≡ taken s p ps
      → Step total cap s t

pub data Reach {ℓ} {R : Type ℓ} (total cap : ℕ) (s : Pool R) : Pool R → Type ℓ where
  here : Reach total cap s s
  then_step : {t u : Pool R} → Reach total cap s t → Step total cap t u → Reach total cap s u

-- All senders are dropped and the channel is drained: the receiver's loop ends.
abbrev pub IsDone {ℓ} : {R : Type ℓ} → Pool R → Type ℓ
IsDone s = All (λ w. w ≡ stopped) s.workers × (s.channel ≡ [])
