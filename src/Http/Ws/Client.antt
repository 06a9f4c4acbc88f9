-- ===== src/Http/Ws/Client.antt =====
-- fox-http/src/ws_client.rs: the state of the client, what it waits for, and the calls of its users.
use rust_fox.Prelude.{
  ℕ, Bool, true, false, List, [], ◌∷◌, ◌++◌, Option, none, some, length, ltb, if◌then◌else◌,
}
use rust_fox.Prelude.Text.{Text}
use rust_fox.Http.Ws.{
  outbox_capacity, WsState, connecting_state, WsMessage, WsEvent, state, failed, message_type,
  Base64, encoded, from_record, Table, enqueue_ws_message, list_pending_ws_messages,
  purge_expired_ws_messages,
}

-- How a session ends.
pub data SessionEnd : Type 0 where
  graceful : SessionEnd
  broken : (reason : Text) → SessionEnd

abbrev pub Waiting : Type 0
Waiting = List (ℕ × WsMessage)

-- Where the task stands: at the head of the outer loop; at that of the inner one; in `connect_async`;
-- in `run_session` before its loop, and in it, with the pings without a pong and the stored messages
-- that are still to be sent; behind the session; in `wait_stoppable`, with the delay and the attempt
-- that follows; at its end.
pub data Phase : Type 0 where
  outer finished : Phase
  attempting connecting opening : (attempt : ℕ) → Phase
  session : (attempt missed : ℕ) → Waiting → Phase
  ended : (attempt : ℕ) → SessionEnd → Phase
  waiting : (delay next : ℕ) → Phase

-- What is written to the connection: a message with the id of its row, if it comes from the table.
pub data Frame : Type 0 where
  sent : (persisted_id : Option ℕ) → WsMessage → Frame
  pong : List ℕ → Frame
  heartbeat close : Frame

-- `WsInner` with the task. `rows` is the table, if there is one; `frames` is what was written without an
-- error.
pub record Client : Type 0 where
  pub phase : Phase
  pub stop : Bool
  pub current : WsState
  pub protocol : Option Text
  pub events : List WsEvent
  pub outbox : List WsMessage
  pub rows : Option Table
  pub frames : List Frame

-- `connect_with_store`, for a URL that is valid.
abbrev pub connect_with_store : Option Table → Client
connect_with_store rows = record {
  phase = outer;
  stop = false;
  current = connecting_state;
  protocol = none;
  events = [];
  outbox = [];
  rows = rows;
  frames = [];
}

-- Frames that a server sends.
pub data Incoming : Type 0 where
  text_frame : Text → Incoming
  binary_frame ping_frame pong_frame : List ℕ → Incoming
  close_frame raw_frame : Incoming

pub data Input : Type 0 where
  -- the task goes on
  proceed : Input
  -- `build_request`, with the error's message
  request : Option Text → Input
  -- `connect_async`: refused with an error, or accepted with a subprotocol
  refused : Text → Input
  accepted : Option Text → Input
  -- `load_persisted`: the time, and whether the purge and the query work
  load : (now : ℕ) (purged listed : Bool) → Input
  -- the select branches of the session: the stop signal, the next message with the error of its
  -- writing, if any, and whether its row is deleted, a frame, the end of the stream or its error, a tick
  -- with the error of its ping
  see_stop : Input
  send_next : (error : Option Text) (deleted : Bool) → Input
  incoming : Incoming → (replied : Bool) → Input
  lost : (error : Option Text) → Input
  tick : (error : Option Text) → Input
  -- the delay is over
  elapsed : Input
  -- `send_message`, with the new row's id and time, and whether the insertion works; the two halves of
  -- `stop`
  call_send : WsMessage → (id now : ℕ) (stored : Bool) → Input
  call_stop stop_returns : Input

abbrev pub at : Phase → Client → Client
at p c = record c { phase = p }

abbrev pub set_state : WsState → Client → Client
set_state s c = record c { current = s; events = c.events ++ state s ∷ [] }

abbrev pub emit_failed : Text → Client → Client
emit_failed reason c = record c { events = c.events ++ failed reason ∷ [] }

abbrev pub write : Frame → Client → Client
write f c = record c { frames = c.frames ++ f ∷ [] }

-- Whether a receiver of the stop signal is subscribed: `watch::Sender::send` fails without one and
-- leaves the value as it is, and the first receiver is dropped when the client is made.
abbrev pub is_listening : Phase → Bool
is_listening (opening n) = true
is_listening (session n missed pending) = true
is_listening (waiting delay next) = true
is_listening _ = false

unfoldable pub ask_stop : Client → Client
ask_stop c = record c { stop = if is_listening c.phase then true else c.stop }

abbrev pub is_finished : Phase → Bool
is_finished finished = true
is_finished _ = false

-- `Result` of `send_message`.
pub data SendResult : Type 0 where
  buffered persisted queue_full store_failed stopped : SendResult

module _ (target : Text) (base64 : Base64) where
  unfoldable pub persist_overflow :
      WsMessage → (id now : ℕ) (stored : Bool) → Client → SendResult × Client
  unfolding enqueue_ws_message encoded message_type
  persist_overflow m id now ok c = elim c.rows [
    | none ↦ (queue_full, c)
    | some rows ↦
        if ok
        then (
          persisted,
          record c {
            rows = some (enqueue_ws_message id now target (message_type m) (encoded base64 m) rows);
          },
        )
        else (store_failed, c)
  ]

  unfoldable pub send_message :
      WsMessage → (id now : ℕ) (stored : Bool) → Client → SendResult × Client
  unfolding persist_overflow
  send_message m id now ok c =
      if is_finished c.phase
      then (stopped, c)
      else if ltb (length c.outbox) outbox_capacity
      then (buffered, record c { outbox = c.outbox ++ m ∷ [] })
      else persist_overflow m id now ok c

  -- `filter_map`
  unfoldable pub decoded : Table → Waiting
  unfolding from_record
  decoded [] = []
  decoded (r ∷ rows) = elim (from_record base64 r.message_type r.payload) [
    | none ↦ decoded rows
    | some m ↦ (r.id, m) ∷ decoded rows
  ]

  abbrev pub purged_rows : (now : ℕ) → Bool → Table → Table
  purged_rows now purged rows = if purged then purge_expired_ws_messages target now rows else rows

  unfoldable pub load_persisted : (now : ℕ) (purged listed : Bool) → Client → Waiting × Client
  unfolding decoded purge_expired_ws_messages list_pending_ws_messages
  load_persisted now purged listed c = elim c.rows [
    | none ↦ ([], c)
    | some rows ↦
        let kept = purged_rows now purged rows in
        (
          if listed then decoded (list_pending_ws_messages target kept) else [],
          record c { rows = some kept },
        )
  ]
