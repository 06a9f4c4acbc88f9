-- ===== src/Http/Ws/Heartbeat.antt =====
-- The heartbeat, and the round trip of a stored message.
use rust_fox.Prelude.{
  ℕ, zero, suc, ◌+◌, ◌≤◌, ◌<◌, ◌≡◌, refl, ap, ◌∙◌, Bool, true, false, List, none, some, replicate,
  arith,
}
use rust_fox.Prelude.Text.{Text}
use rust_fox.Http.Ws.{
  WsMessage, text, binary, ping, WsOptions, Base64, message_type, encoded, from_record, u32_max,
}
use rust_fox.Http.Ws.Client.{broken, Waiting, Phase, session, ended, Client, tick, write, heartbeat}
use rust_fox.Http.Ws.Task.{advance, run, on_task, in_session, beat}

abbrev pub is_broken : Phase → Bool
is_broken (ended n (broken reason)) = true
is_broken _ = false

module _ (options : WsOptions) where
  beat-on :
      (n missed : ℕ) (pending : Waiting)
      → missed + 1 < options.max_missed_pongs
      → options.max_missed_pongs ≤ u32_max
      → beat options n missed pending ≡ session n (missed + 1) pending
  unfolding beat
  beat-on n missed pending h k = ground arith

  beat-broken :
      (n missed : ℕ) (pending : Waiting)
      → options.max_missed_pongs ≤ missed + 1
      → options.max_missed_pongs ≤ u32_max
      → is_broken (beat options n missed pending) ≡ true
  unfolding beat
  beat-broken n missed pending h k = ground arith

module _ (options : WsOptions) (target : Text) (base64 : Base64) where
  abbrev pub ticks : ℕ → Client → Client
  ticks k = run options target base64 (replicate k (tick none))

  tick-on :
      (m n : ℕ) (pending : Waiting) (c : Client)
      → m + 1 < options.max_missed_pongs
      → options.max_missed_pongs ≤ u32_max
      → advance options target base64 (tick none) (record c { phase = session n m pending })
        ≡ record (write heartbeat c) { phase = session n (m + 1) pending }
  unfolding advance on_task in_session
  tick-on m n pending c h top =
      ap (λ p. record (write heartbeat c) { phase = p }) (beat-on options n m pending h top)

  ticks-on :
      (k m n : ℕ) (pending : Waiting) (c : Client)
      → m + k < options.max_missed_pongs
      → options.max_missed_pongs ≤ u32_max
      → (ticks k (record c { phase = session n m pending })).phase ≡ session n (m + k) pending
  unfolding run
  ticks-on zero m n pending c h top = ap (λ i. session n i pending) (omega arith)
  ticks-on (suc k) m n pending c h top =
      ap (λ d. (ticks k d).phase) (tick-on m n pending c (omega arith) top)
      ∙ (ticks-on k (m + 1) n pending (write heartbeat c) (omega arith) top
          ∙ ap (λ i. session n i pending) (omega arith))

  ticks-broken :
      (k m n : ℕ) (pending : Waiting) (c : Client)
      → m < options.max_missed_pongs
      → m + k ≡ options.max_missed_pongs
      → options.max_missed_pongs ≤ u32_max
      → is_broken (ticks k (record c { phase = session n m pending })).phase ≡ true
  unfolding run on_task in_session
  ticks-broken zero m n pending c h e top = absurd (omega arith)
  ticks-broken (suc zero) m n pending c h e top = beat-broken options n m pending (omega arith) top
  ticks-broken (suc (suc k)) m n pending c h e top =
      ap (λ d. is_broken (ticks (suc k) d).phase) (tick-on m n pending c (omega arith) top)
      ∙ (ticks-broken (suc k) (m + 1) n pending (write heartbeat c) (omega arith) (omega arith) top)

  -- As long as no pong comes, heartbeats that are written leave the session as it is but for the count, up
  -- to the configured number of missed pongs; that one ends it as broken.
  pub run-ticks :
      (c : Client) (n : ℕ) (pending : Waiting)
      → 0 < options.max_missed_pongs
      → options.max_missed_pongs ≤ u32_max
      → ((k : ℕ)
          → k < options.max_missed_pongs
          → (ticks k (record c { phase = session n 0 pending })).phase ≡ session n k pending)
        × (is_broken
              (ticks options.max_missed_pongs (record c { phase = session n 0 pending })).phase
            ≡ true)
  run-ticks c n pending pos top = (
    λ k h. ticks-on k 0 n pending c (omega arith) top ∙ ap (λ i. session n i pending) (omega arith),
    ticks-broken options.max_missed_pongs 0 n pending c pos (omega arith) top,
  )

-- A message that is stored and read back is the same, if base64 decodes what it encoded.
pub from_record-encoded :
    (base64 : Base64)
    → ((bytes : List ℕ) → base64.decode (base64.encode bytes) ≡ some bytes)
    → (m : WsMessage) → from_record base64 (message_type m) (encoded base64 m) ≡ some m
unfolding from_record message_type encoded
from_record-encoded base64 h (text s) = refl
from_record-encoded base64 h (binary bytes) = rw (h bytes) refl
from_record-encoded base64 h (ping bytes) = rw (h bytes) refl
