-- ===== src/Http/Ws/Task.antt =====
-- fox-http/src/ws_client.rs: the client's task, with its loop of connections and its sessions. What it
-- awaits, and the calls of the users, come as inputs, in any order; an input that the task does not wait
-- for leaves it where it is.
use rust_fox.Prelude.{ℕ, Bool, List, [], ◌∷◌, ◌++◌, Option, none, some, leb, if◌then◌else◌}
use rust_fox.Prelude.Text.{Text, codes, show}
use rust_fox.Http.Ws.{
  connecting_state, open_state, closed_state, error_state, WsMessage, text, binary, message,
  WsOptions, backoff_delay, saturating_suc, Base64, Table, delete_ws_messages,
}
use rust_fox.Http.Ws.Client.{
  Client, Incoming, Input, Phase, SessionEnd, Waiting, accepted, ask_stop, at, attempting,
  binary_frame, broken, call_send, call_stop, close, close_frame, connecting, elapsed, emit_failed,
  ended, finished, graceful, heartbeat, incoming, load, load_persisted, lost, opening, outer,
  ping_frame, pong, pong_frame, proceed, raw_frame, refused, request, see_stop, send_message,
  send_next, sent, session, set_state, stop_returns, text_frame, tick, waiting, write,
}

module _ (options : WsOptions) where
  -- Behind a failure or a session: out of the inner loop, or to the delay.
  abbrev pub reconnect : (attempt next : ℕ) → Client → Client
  reconnect attempt next c =
      at (if options.auto_reconnect then waiting (backoff_delay options attempt) next else outer) c

  unfoldable pub after_failure : (reason : Text) (attempt : ℕ) → Client → Client
  unfolding backoff_delay
  after_failure reason attempt c =
      reconnect attempt (saturating_suc attempt) (emit_failed reason (set_state error_state c))

  unfoldable pub after_session : SessionEnd → (attempt : ℕ) → Client → Client
  unfolding backoff_delay
  after_session graceful attempt c = reconnect attempt attempt (set_state closed_state c)
  after_session (broken reason) attempt c =
      reconnect attempt attempt (emit_failed reason (set_state error_state c))

  -- The statements between two awaits.
  unfoldable pub go_on : Phase → Client → Client
  unfolding after_session
  go_on outer c =
      if c.stop
      then at finished (set_state closed_state c)
      else at (attempting 1) (set_state connecting_state c)
  go_on (ended n end) c = if c.stop then at outer c else after_session end n c
  go_on _ c = c

  unfoldable pub on_request : Phase → Option Text → Client → Client
  unfolding after_failure
  on_request (attempting n) none c = if c.stop then at outer c else at (connecting n) c
  on_request (attempting n) (some reason) c =
      if c.stop then at outer c else after_failure reason n c
  on_request _ r c = c

  -- The missed pongs after a heartbeat that was written.
  unfoldable pub beat : (attempt missed : ℕ) → Waiting → Phase
  beat n missed pending =
      let missed' = saturating_suc missed in
      if leb options.max_missed_pongs missed'
      then ended n (broken (codes "心跳超时：连续 " ++ (show missed' ++ codes " 次未收到 Pong")))
      else session n missed' pending

abbrev pub send_error : Text → SessionEnd
send_error err = broken (codes "消息发送失败：" ++ err)

-- One message of the session: a stored one first.
abbrev pub forget : (id : ℕ) → Option Table → Option Table
forget id none = none
forget id (some rows) = some (delete_ws_messages (id ∷ []) rows)

unfoldable pub send_stored :
    (attempt missed id : ℕ)
    → WsMessage
    → Waiting
    → (error : Option Text) (deleted : Bool) → Client
    → Client
unfolding delete_ws_messages
send_stored n missed id m pending (some err) deleted c = at (ended n (send_error err)) c
send_stored n missed id m pending none deleted c =
    record (write (sent (some id) m) (at (session n missed pending) c)) {
      rows = if deleted then forget id c.rows else c.rows;
    }

unfoldable pub send_queued :
    (attempt missed : ℕ) → List WsMessage → (error : Option Text) → Client → Client
send_queued n missed [] error c = c
send_queued n missed (m ∷ outbox) none c = record (write (sent none m) c) { outbox = outbox }
send_queued n missed (m ∷ outbox) (some err) c = record (at (ended n (send_error err)) c) {
  outbox = outbox;
}

abbrev pub reply : List ℕ → Bool → Client → Client
reply payload replied c = if replied then write (pong payload) c else c

unfoldable pub on_incoming :
    (attempt missed : ℕ) → Waiting → Incoming → (replied : Bool) → Client → Client
on_incoming n missed pending (text_frame s) replied c = record c {
  events = c.events ++ message (text s) ∷ [];
}
on_incoming n missed pending (binary_frame b) replied c = record c {
  events = c.events ++ message (binary b) ∷ [];
}
on_incoming n missed pending (ping_frame b) replied c = reply b replied c
on_incoming n missed pending (pong_frame b) replied c = at (session n 0 pending) c
on_incoming n missed pending close_frame replied c = write close (at (ended n graceful) c)
on_incoming n missed pending raw_frame replied c = c

module _ (options : WsOptions) (target : Text) (base64 : Base64) where
  -- Behind `load_persisted`.
  abbrev pub begin_session : (attempt : ℕ) → Waiting × Client → Client
  begin_session n (pending, c) =
      if c.stop then write close (at (ended n graceful) c) else at (session n 0 pending) c

  unfoldable pub in_session : (attempt missed : ℕ) → Waiting → Input → Client → Client
  unfolding send_stored send_queued on_incoming beat
  in_session n missed pending see_stop c =
      if c.stop then write close (at (ended n graceful) c) else c
  in_session n missed ((id, m) ∷ pending) (send_next error deleted) c =
      send_stored n missed id m pending error deleted c
  in_session n missed [] (send_next error deleted) c = send_queued n missed c.outbox error c
  in_session n missed pending (incoming f replied) c = on_incoming n missed pending f replied c
  in_session n missed pending (lost none) c = at (ended n (broken (codes "连接已被对端关闭"))) c
  in_session n missed pending (lost (some err)) c = at (ended n (broken (codes "连接中断：" ++ err))) c
  in_session n missed pending (tick none) c = write heartbeat (at (beat options n missed pending) c)
  in_session n missed pending (tick (some err)) c = at (ended n (broken (codes "心跳发送失败：" ++ err))) c
  in_session n missed pending _ c = c

  unfoldable pub on_task : Phase → Input → Client → Client
  unfolding go_on on_request after_failure load_persisted in_session
  on_task (connecting n) (refused err) c =
      after_failure options (codes "WebSocket 连接失败：" ++ err) n c
  on_task (connecting n) (accepted sub) c = record (at (opening n) (set_state open_state c)) {
    protocol = sub;
  }
  on_task (opening n) (load now purged listed) c =
      begin_session n (load_persisted target base64 now purged listed c)
  on_task (waiting delay next) elapsed c = at (attempting next) c
  on_task (waiting delay next) see_stop c = if c.stop then at outer c else c
  on_task (session n missed pending) i c = in_session n missed pending i c
  on_task p proceed c = go_on options p c
  on_task p (request r) c = on_request options p r c
  on_task p _ c = c

  unfoldable pub advance : Input → Client → Client
  unfolding on_task send_message ask_stop
  advance (call_send m id now stored) c = (send_message target base64 m id now stored c).1
  advance call_stop c = ask_stop c
  advance stop_returns c = record c { current = closed_state }
  advance i c = on_task c.phase i c

  -- A run, with its inputs in their order.
  unfoldable pub run : List Input → Client → Client
  unfolding advance
  run [] c = c
  run (i ∷ inputs) c = run inputs (advance i c)
