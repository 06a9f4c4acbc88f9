-- ===== src/Http/Ws/Stopping.antt =====
-- Stopping the client, and reconnecting.
use rust_fox.Prelude.{
  ℕ, ◌≡◌, refl, inl, inr, Bool, true, false, List, [], ◌∷◌, ◌++◌, Option, none, some, if◌then◌else◌,
  Bool-cases, arith,
}
use rust_fox.Prelude.Text.{Text, codes}
use rust_fox.Http.Ws.{closed_state, WsMessage, WsOptions, Base64, Table}
use rust_fox.Http.Ws.Client.{
  SessionEnd, graceful, broken, Waiting, Phase, outer, finished, attempting, connecting, opening,
  session, ended, waiting, Client, connect_with_store, Input, proceed, request, refused, accepted,
  load, see_stop, send_next, incoming, lost, tick, elapsed, call_send, call_stop, stop_returns,
  is_listening, is_finished, load_persisted, send_message, persist_overflow, ask_stop, text_frame,
  binary_frame, ping_frame, pong_frame, close_frame, raw_frame,
}
use rust_fox.Http.Ws.Task.{
  advance, run, on_task, go_on, on_request, after_failure, after_session, in_session, begin_session,
  send_stored, send_queued, on_incoming, beat,
}

abbrev pub is_connecting : Phase → Bool
is_connecting (connecting n) = true
is_connecting _ = false

-- No connection is tried once the stop signal is set; and the task ends only then, in the state `Closed`.
pub record IsOrderly (c : Client) : Type 0 where
  pub no_attempt : c.stop ≡ true → is_connecting c.phase ≡ false
  pub at_end : is_finished c.phase ≡ true → (c.stop ≡ true) × (c.current ≡ closed_state)

-- Neither in `connect_async` nor at the end.
abbrev is_calm : Phase → Bool
is_calm (connecting n) = false
is_calm finished = false
is_calm _ = true

calm-IsOrderly : (c : Client) → is_calm c.phase ≡ true → IsOrderly c
calm-IsOrderly c h = record { no_attempt = λ _. ground arith; at_end = λ k. ground arith }

transfer :
    (c d : Client)
    → d.phase ≡ c.phase
    → d.stop ≡ c.stop
    → d.current ≡ c.current
    → IsOrderly c
    → IsOrderly d
transfer c d p q r o = record {
  no_attempt = λ h. ground (arith, o.no_attempt);
  at_end = λ h. ground (arith, o.at_end);
}

either : (b : Bool) (x y : Client) → IsOrderly x → IsOrderly y → IsOrderly (if b then x else y)
either true x y o q = o
either false x y o q = q

listening-calm : (p : Phase) → is_listening p ≡ true → is_calm p ≡ true
listening-calm p h = ground arith

module _ (options : WsOptions) where
  after_failure-calm :
      (reason : Text) (n : ℕ) (c : Client) → is_calm (after_failure options reason n c).phase ≡ true
  unfolding after_failure
  after_failure-calm reason n c = ground arith

  after_session-calm :
      (end : SessionEnd) (n : ℕ) (c : Client) → is_calm (after_session options end n c).phase ≡ true
  unfolding after_session
  after_session-calm graceful n c = ground arith
  after_session-calm (broken reason) n c = ground arith

  beat-calm : (n missed : ℕ) (pending : Waiting) → is_calm (beat options n missed pending) ≡ true
  unfolding beat
  beat-calm n missed pending = ground arith

module _ (options : WsOptions) (target : Text) (base64 : Base64) where
  begin_session-calm :
      (n : ℕ) (l : Waiting × Client)
      → is_calm (begin_session options target base64 n l).phase ≡ true
  begin_session-calm n (pending, c) = ground arith

  in_session-calm :
      (n missed : ℕ) (pending : Waiting) (i : Input) (c : Client)
      → is_calm c.phase ≡ true
      → is_calm (in_session options target base64 n missed pending i c).phase ≡ true
  unfolding in_session send_stored send_queued on_incoming
  in_session-calm n missed pending see_stop c h = ground arith
  in_session-calm n missed ((id, m) ∷ pending) (send_next none deleted) c h = refl
  in_session-calm n missed ((id, m) ∷ pending) (send_next (some err) deleted) c h = refl
  in_session-calm n missed [] (send_next error deleted) c h = sent_queue c.outbox error
    where
      sent_queue :
          (ms : List WsMessage) (err : Option Text)
          → is_calm (send_queued n missed ms err c).phase ≡ true
      sent_queue [] err = h
      sent_queue (m ∷ ms) none = h
      sent_queue (m ∷ ms) (some err) = refl
  in_session-calm n missed pending (incoming (ping_frame b) replied) c h = ground arith
  in_session-calm n missed pending (incoming (pong_frame b) replied) c h = refl
  in_session-calm n missed pending (incoming close_frame replied) c h = refl
  in_session-calm n missed pending (incoming (text_frame s) replied) c h = h
  in_session-calm n missed pending (incoming (binary_frame s) replied) c h = h
  in_session-calm n missed pending (incoming raw_frame replied) c h = h
  in_session-calm n missed pending (lost none) c h = refl
  in_session-calm n missed pending (lost (some err)) c h = refl
  in_session-calm n missed pending (tick none) c h = beat-calm options n missed pending
  in_session-calm n missed pending (tick (some err)) c h = refl
  in_session-calm n missed pending i c h = h

  on_task-IsOrderly :
      (p : Phase) (i : Input) (c : Client)
      → c.phase ≡ p
      → IsOrderly c
      → IsOrderly (on_task options target base64 p i c)
  unfolding on_task go_on on_request
  on_task-IsOrderly (connecting n) (refused r) c e o =
      calm-IsOrderly _ (after_failure-calm options (codes "WebSocket 连接失败：" ++ r) n c)
  on_task-IsOrderly (connecting n) (accepted sub) c e o = calm-IsOrderly _ refl
  on_task-IsOrderly (opening n) (load now purged listed) c e o =
      calm-IsOrderly _ (begin_session-calm n (load_persisted target base64 now purged listed c))
  on_task-IsOrderly (waiting delay next) elapsed c e o = calm-IsOrderly _ refl
  on_task-IsOrderly (waiting delay next) see_stop c e o = calm-IsOrderly _ (ground (arith, e))
  on_task-IsOrderly (session n missed pending) i c e o =
      calm-IsOrderly _ (in_session-calm n missed pending i c (ground (arith, e)))
  on_task-IsOrderly (attempting n) (request none) c e o = elim (Bool-cases c.stop) [
    | inl set ↦ rw set (calm-IsOrderly _ refl)
    | inr unset ↦ rw unset (record { no_attempt = λ h. ground arith; at_end = λ h. ground arith })
  ]
  on_task-IsOrderly (attempting n) (request (some reason)) c e o =
      either c.stop _ _ (calm-IsOrderly _ refl)
        (calm-IsOrderly _ (after_failure-calm options reason n c))
  on_task-IsOrderly outer proceed c e o = elim (Bool-cases c.stop) [
    | inl set ↦ rw set (record { no_attempt = λ h. refl; at_end = λ h. (refl, refl) })
    | inr unset ↦ rw unset (calm-IsOrderly _ refl)
  ]
  on_task-IsOrderly (ended n end) proceed c e o =
      either c.stop _ _ (calm-IsOrderly _ refl)
        (calm-IsOrderly _ (after_session-calm options end n c))
  on_task-IsOrderly finished proceed c e o = o
  on_task-IsOrderly finished (request r) c e o = o
  on_task-IsOrderly p i c e o = o

  send_message-IsOrderly :
      (m : WsMessage) (id now : ℕ) (stored : Bool) (c : Client)
      → IsOrderly c
      → IsOrderly (send_message target base64 m id now stored c).1
  unfolding send_message persist_overflow
  send_message-IsOrderly m id now stored c o =
      transfer c _ (ground arith) (ground arith) (ground arith) o

  ask_stop-IsOrderly : (c : Client) → IsOrderly c → IsOrderly (ask_stop c)
  unfolding ask_stop
  ask_stop-IsOrderly c o = elim (Bool-cases (is_listening c.phase)) [
    | inl heard ↦ rw heard (calm-IsOrderly _ (listening-calm c.phase heard))
    | inr unheard ↦ rw unheard o
  ]

  advance-IsOrderly :
      (i : Input) (c : Client) → IsOrderly c → IsOrderly (advance options target base64 i c)
  unfolding advance
  advance-IsOrderly (call_send m id now stored) c o = send_message-IsOrderly m id now stored c o
  advance-IsOrderly call_stop c o = ask_stop-IsOrderly c o
  advance-IsOrderly stop_returns c o = record {
    no_attempt = o.no_attempt;
    at_end = λ h. ((o.at_end h).0, refl);
  }
  advance-IsOrderly i c o = on_task-IsOrderly c.phase i c refl o

  run-IsOrderly_from :
      (is : List Input) (c : Client) → IsOrderly c → IsOrderly (run options target base64 is c)
  unfolding run
  run-IsOrderly_from [] c o = o
  run-IsOrderly_from (i ∷ is) c o =
      run-IsOrderly_from is (advance options target base64 i c) (advance-IsOrderly i c o)

  -- Whatever happens from the making of the client on, once the stop signal is set no connection is
  -- tried, and the task ends only with the signal set and in the state `Closed`.
  pub run-IsOrderly :
      (rows : Option Table) (inputs : List Input)
      → IsOrderly (run options target base64 inputs (connect_with_store rows))
  run-IsOrderly rows inputs =
      run-IsOrderly_from inputs (connect_with_store rows) (calm-IsOrderly _ refl)
