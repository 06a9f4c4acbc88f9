-- ===== src/Http/Ws/Stored.antt =====
-- The stored messages: how a row leaves the table.
use rust_fox.Prelude.{
  ℕ, ◌≡◌, refl, sym, ap, ◌∙◌, ◌⊎◌, inl, inr, Bool, true, false, ◌&&◌, [], ◌∷◌, ◌++◌, Option, none,
  some, length, ltb, Bool-cases, ◌==◌, list_eq, nat_eq, arith,
}
use mathlib.Core.Path.{subst}
use rust_fox.Prelude.Text.{Text}
use rust_fox.Http.Ws.{
  outbox_capacity, WsMessage, WsOptions, Base64, Table, WsMessageRow, is_expired,
  enqueue_ws_message, message_type, encoded, purge_expired_ws_messages,
}
use rust_fox.Http.Ws.Client.{
  Waiting, Phase, connecting, opening, session, waiting, Client, Input, proceed, request, refused,
  accepted, load, see_stop, send_next, incoming, lost, tick, elapsed, call_send, call_stop,
  stop_returns, sent, is_finished, load_persisted, purged_rows, send_message, persist_overflow,
  ask_stop,
}
use rust_fox.Http.Ws.Task.{advance, on_task, after_failure, in_session, begin_session, send_stored}
use rust_fox.Http.Ws.Rows.{
  In, IsStored, In-append, In-keep, stays, go_on-rows, on_request-rows, on_incoming-rows,
  send_queued-rows, forget-IsStored,
}

-- The row's message is the next of the session, and is written to the connection.
pub record IsWritten (r : WsMessageRow) (c d : Client) : Type 0 where
  pub attempt : ℕ
  pub missed : ℕ
  pub message : WsMessage
  pub pending : Waiting
  pub turn : c.phase ≡ session attempt missed ((r.id, message) ∷ pending)
  pub written : d.frames ≡ c.frames ++ sent (some r.id) message ∷ []

abbrev pub IsPurged : (target : Text) → WsMessageRow → Input → Type 0
IsPurged target r (load now purged listed) = (r.target == target && is_expired now r) ≡ true
IsPurged target r _ = ⊥

-- The row is still there, or its message has been written, or it has been purged.
abbrev pub StaysOrLeaves : (target : Text) → WsMessageRow → Input → (c d : Client) → Type 0
StaysOrLeaves target r i c d = IsStored r d.rows ⊎ IsWritten r c d ⊎ IsPurged target r i

module _ (options : WsOptions) (target : Text) (base64 : Base64) where
  purged_rows-leaves :
      (r : WsMessageRow) (now : ℕ) (purged listed : Bool) (rows : Table)
      → In r rows
      → In r (purged_rows target base64 now purged rows)
        ⊎ IsPurged target r (load now purged listed)
  unfolding purge_expired_ws_messages
  purged_rows-leaves r now false listed rows h = inl h
  purged_rows-leaves r now true listed rows h =
      elim (Bool-cases (r.target == target && is_expired now r)) [
        | inl old ↦ inr old
        | inr young ↦ inl (In-keep _ r rows (ground arith) h)
      ]

  abbrev purged_table : (now : ℕ) → Bool → Option Table → Option Table
  purged_table now purged none = none
  purged_table now purged (some rows) = some (purged_rows target base64 now purged rows)

  load-leaves :
      (r : WsMessageRow) (n now : ℕ) (purged listed : Bool) (c : Client)
      → IsStored r c.rows
      → IsStored r
          (begin_session options target base64 n
            (load_persisted target base64 now purged listed c)).rows
        ⊎ IsPurged target r (load now purged listed)
  unfolding load_persisted
  load-leaves r n now purged listed c h = loaded c.rows refl h
    where
      begun : (l : Waiting × Client) → (begin_session options target base64 n l).rows ≡ l.1.rows
      begun (pending, d) = ground arith

      after :
          (rows : Option Table)
          → c.rows ≡ rows
          → (load_persisted target base64 now purged listed c).1.rows ≡ purged_table now purged rows
      after none e = ground (arith, e)
      after (some rows) e = ground (arith, e)

      loaded :
          (rows : Option Table)
          → c.rows ≡ rows
          → IsStored r rows
          → IsStored r
              (begin_session options target base64 n
                (load_persisted target base64 now purged listed c)).rows
            ⊎ IsPurged target r (load now purged listed)
      loaded none e k = elim k [ ]
      loaded (some rows) e k = elim (purged_rows-leaves r now purged listed rows k) [
        | inl there ↦ inl (
            stays r (begun (load_persisted target base64 now purged listed c) ∙ after (some rows) e)
              there)
        | inr old ↦ inr old
      ]

  in_session-leaves :
      (r : WsMessageRow) (n missed : ℕ) (pending : Waiting) (i : Input) (c : Client)
      → c.phase ≡ session n missed pending
      → IsStored r c.rows
      → StaysOrLeaves target r i c (in_session options target base64 n missed pending i c)
  unfolding in_session send_stored
  in_session-leaves r n missed pending see_stop c e h = inl (stays r (ground arith) h)
  in_session-leaves r n missed [] (send_next error deleted) c e h =
      inl (stays r (send_queued-rows n missed c.outbox error c) h)
  in_session-leaves r n missed ((id, m) ∷ pending) (send_next none false) c e h = inl h
  in_session-leaves r n missed ((id, m) ∷ pending) (send_next none true) c e h =
      elim (forget-IsStored r id c.rows h) [
        | inl there ↦ inl there
        | inr own ↦ inr (
            inl (record {
              attempt = n;
              missed = missed;
              message = m;
              pending = pending;
              turn = e ∙ ap (λ j. session n missed ((j, m) ∷ pending)) own;
              written = ap (λ j. c.frames ++ sent (some j) m ∷ []) own;
            }))
      ]
  in_session-leaves r n missed ((id, m) ∷ pending) (send_next (some err) deleted) c e h = inl h
  in_session-leaves r n missed pending (incoming f replied) c e h =
      inl (stays r (on_incoming-rows n missed pending f replied c) h)
  in_session-leaves r n missed pending (lost none) c e h = inl h
  in_session-leaves r n missed pending (lost (some err)) c e h = inl h
  in_session-leaves r n missed pending (tick none) c e h = inl h
  in_session-leaves r n missed pending (tick (some err)) c e h = inl h
  in_session-leaves r n missed pending i c e h = inl h

  on_task-leaves :
      (r : WsMessageRow) (p : Phase) (i : Input) (c : Client)
      → c.phase ≡ p
      → IsStored r c.rows
      → StaysOrLeaves target r i c (on_task options target base64 p i c)
  unfolding on_task after_failure
  on_task-leaves r (session n missed pending) i c e h = in_session-leaves r n missed pending i c e h
  on_task-leaves r (opening n) (load now purged listed) c e h =
      elim (load-leaves r n now purged listed c h) [
        | inl there ↦ inl there
        | inr old ↦ inr (inr old)
      ]
  on_task-leaves r (connecting n) (refused err) c e h = inl h
  on_task-leaves r (connecting n) (accepted sub) c e h = inl h
  on_task-leaves r (waiting delay next) elapsed c e h = inl h
  on_task-leaves r (waiting delay next) see_stop c e h = inl (stays r (ground arith) h)
  on_task-leaves r p proceed c e h = inl (stays r (go_on-rows options p c) h)
  on_task-leaves r p (request q) c e h = inl (stays r (on_request-rows options p q c) h)
  on_task-leaves r p i c e h = inl h

  persist_overflow-stays :
      (r : WsMessageRow) (m : WsMessage) (id now : ℕ) (stored : Bool) (o : Option Table)
      (c : Client)
      → c.rows ≡ o
      → IsStored r o
      → IsStored r (persist_overflow target base64 m id now stored c).1.rows
  unfolding persist_overflow
  persist_overflow-stays r m id now stored none c e h = elim h [ ]
  persist_overflow-stays r m id now true (some rows) c e h =
      subst (IsStored r) (sym (added e)) (unfold enqueue_ws_message in In-append r rows _ h)
    where
      added :
          c.rows ≡ some rows
          → (persist_overflow target base64 m id now true c).1.rows
            ≡ some (enqueue_ws_message id now target (message_type m) (encoded base64 m) rows)
      added e = ground (arith, e)
  persist_overflow-stays r m id now false (some rows) c e h = subst (IsStored r) (sym (kept e)) h
    where
      kept :
          c.rows ≡ some rows → (persist_overflow target base64 m id now false c).1.rows ≡ some rows
      kept e = ground (arith, e)

  send_message-stays :
      (r : WsMessageRow) (m : WsMessage) (id now : ℕ) (stored : Bool) (c : Client)
      → IsStored r c.rows
      → IsStored r (send_message target base64 m id now stored c).1.rows
  unfolding send_message
  send_message-stays r m id now stored c h = elim (Bool-cases (is_finished c.phase)) [
    | inl over ↦ rw over h
    | inr on ↦ elim (Bool-cases (ltb (length c.outbox) outbox_capacity)) [
      | inl room ↦ rw (on, room) h
      | inr full ↦ rw (on, full) (persist_overflow-stays r m id now stored c.rows c refl h)
    ]
  ]

  -- In each step of the client, a stored message stays in the table, or it is the next message of the session
  -- and is written to the connection in this step, or it is of the client's target, older than a day, and
  -- purged before a session.
  pub advance-leaves :
      (r : WsMessageRow) (i : Input) (c : Client)
      → IsStored r c.rows
      → StaysOrLeaves target r i c (advance options target base64 i c)
  unfolding advance ask_stop
  advance-leaves r (call_send m id now stored) c h = inl (send_message-stays r m id now stored c h)
  advance-leaves r call_stop c h = inl h
  advance-leaves r stop_returns c h = inl h
  advance-leaves r i c h = on_task-leaves r c.phase i c refl h
