-- ===== src/Http/Ws/Tests.antt =====
-- Runs of the WebSocket client on concrete inputs.
use rust_fox.Prelude.{
  ℕ, ◌≡◌, refl, inl, true, false, List, [], ◌∷◌, none, some, ◌*◌, ◌^◌, ◌-◌, ◌<◌, min, arith,
}
use rust_fox.Prelude.Text.{Text, codes}
use rust_fox.Http.Ws.{
  WsOptions, default_options, Base64, text, text_type, WsMessageRow, backoff_delay, closed_state,
}
use rust_fox.Http.Ws.Backoff.{backoff_delay_lem}
use rust_fox.Http.Ws.Client.{
  Client, connect_with_store, session, connecting, waiting, Input, proceed, request, accepted, load,
  sent, send_next, call_send, call_stop, stop_returns,
}
use rust_fox.Http.Ws.Task.{advance, run}
use rust_fox.Http.Ws.Delivery.Fates.{IsFifo, write_errors}
use rust_fox.Http.Ws.Delivery.{all_accepted, run-IsFifo}
use rust_fox.Http.Ws.Heartbeat.{ticks, is_broken, run-ticks}
use rust_fox.Http.Ws.Signals.{IsOpen, run-call_stop_lost}
use rust_fox.Http.Ws.Stopping.{IsOrderly, run-IsOrderly}
use rust_fox.Http.Ws.Stored.{StaysOrLeaves, advance-leaves}

abbrev plain : Base64
plain = record { encode = λ bytes. bytes; decode = λ s. some s }

abbrev target : Text
target = codes "wss://a.b/c"

abbrev once : WsOptions
once = record default_options { auto_reconnect = false }

abbrev fresh : Client
fresh = connect_with_store (some [])

delays :
    (backoff_delay default_options 1 ≡ 500)
    × (backoff_delay default_options 3 ≡ 2000)
    × (backoff_delay default_options 100 ≡ 30000)
unfolding backoff_delay
delays = (refl, refl, refl)

backoff_delay_lem_example : backoff_delay default_options 4 ≡ min (500 * 2 ^ (4 - 1)) 30000
backoff_delay_lem_example = backoff_delay_lem default_options 4 (omega arith) (omega arith)

-- Connected, with one message sent and one whose write fails.
abbrev inputs : List Input
inputs =
    call_send (text (codes "a")) 1 0 true
    ∷ proceed
    ∷ request none
    ∷ accepted none
    ∷ load 0 true true
    ∷ send_next none true
    ∷ call_send (text (codes "b")) 2 5 true
    ∷ send_next (some (codes "broken pipe")) true
    ∷ proceed
    ∷ []

after_inputs :
    ((run default_options target plain inputs fresh).phase ≡ waiting 500 1)
    × ((run default_options target plain inputs fresh).frames ≡ sent none (text (codes "a")) ∷ [])
unfolding run backoff_delay
after_inputs = (refl, refl)

run-IsFifo_example :
    IsFifo
      (all_accepted default_options target plain inputs (connect_with_store (some [])))
      (write_errors inputs)
      (run default_options target plain inputs (connect_with_store (some [])))
run-IsFifo_example = run-IsFifo default_options target plain (some []) inputs

run-IsOrderly_example :
    IsOrderly (run default_options target plain inputs (connect_with_store (some [])))
run-IsOrderly_example = run-IsOrderly default_options target plain (some []) inputs

run-call_stop_lost_example :
    ((run default_options target plain
        (call_stop ∷ stop_returns ∷ [])
        (record fresh { phase = connecting 1 })).current
      ≡ closed_state)
    × IsOpen (
        run default_options target plain
          (call_stop ∷ stop_returns ∷ accepted none ∷ load 7 true true ∷ [])
          (record fresh { phase = connecting 1 }))
run-call_stop_lost_example =
    run-call_stop_lost default_options target plain fresh 1 7 none true true refl

run-ticks_example :
    ((k : ℕ)
      → k < 3
      → (ticks default_options target plain k (record fresh { phase = session 1 0 [] })).phase
        ≡ session 1 k [])
    × (is_broken
          (ticks default_options target plain 3 (record fresh { phase = session 1 0 [] })).phase
        ≡ true)
run-ticks_example = run-ticks default_options target plain fresh 1 [] (omega arith) (omega arith)

abbrev row : WsMessageRow
row = record {
  id = 9;
  target = target;
  message_type = text_type;
  payload = codes "late";
  created_at = 3;
}

abbrev sending : Client
sending = record (connect_with_store (some (row ∷ []))) {
  phase = session 1 0 ((9, text (codes "late")) ∷ []);
}

advance-leaves_example :
    StaysOrLeaves target row
      (send_next none true)
      sending
      (advance default_options target plain (send_next none true) sending)
advance-leaves_example =
    advance-leaves default_options target plain row (send_next none true) sending (inl refl)
