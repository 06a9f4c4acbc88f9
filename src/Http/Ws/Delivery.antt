-- ===== src/Http/Ws/Delivery.antt =====
-- The queue of messages: what the client accepts is written to its connections in order.
pub mod Fates
use rust_fox.Http.Ws.Delivery.Fates.{
  IsFifo-cast, IsFifo-same, arrived, arrived-append, failures, failures-append, from_queue,
  from_queue-append, queue, queue-write, quiet, taken, taken-append, write_errors,
  write_errors-cons, Fate, IsFifo, delivered, unwritten,
}
use rust_fox.Prelude.{
  ℕ, ◌+◌, ◌≤◌, ◌<◌, ◌⊎◌, ◌≡◌, refl, sym, ap, ◌∙◌, inl, inr, Bool, true, false, List, [], ◌∷◌, ◌++◌,
  Option, none, some, length, length-append, ltb, Bool-cases, Option-cases, append_assoc,
  append-nil, arith, if◌then◌else◌,
}
use rust_fox.Prelude.Text.{Text}
use rust_fox.Http.Ws.{outbox_capacity, WsMessage, WsOptions, Base64, Table}
use rust_fox.Http.Ws.Client.{
  graceful, broken, Waiting, Phase, outer, attempting, connecting, opening, session, ended, waiting,
  Client, connect_with_store, Input, proceed, request, refused, accepted, load, see_stop, send_next,
  incoming, lost, tick, elapsed, call_send, call_stop, stop_returns, is_finished, load_persisted,
  send_message, persist_overflow, ask_stop, Incoming, ping_frame, close_frame, Frame, sent, pong,
  heartbeat, close, write, at, SendResult, buffered,
}
use rust_fox.Http.Ws.Task.{
  advance, run, on_task, go_on, on_request, after_failure, after_session, in_session, begin_session,
  send_stored, send_queued, on_incoming, reply,
}

module _ (options : WsOptions) where
  go_on-queue : (p : Phase) (c : Client) → queue (go_on options p c) ≡ queue c
  unfolding go_on after_session
  go_on-queue outer c = ground arith
  go_on-queue (ended n graceful) c = ground arith
  go_on-queue (ended n (broken reason)) c = ground arith
  go_on-queue p c = refl

  on_request-queue :
      (p : Phase) (r : Option Text) (c : Client) → queue (on_request options p r c) ≡ queue c
  unfolding on_request after_failure
  on_request-queue (attempting n) none c = ground arith
  on_request-queue (attempting n) (some reason) c = ground arith
  on_request-queue p r c = refl

reply-queue :
    (payload : List ℕ) (replied : Bool) (c : Client) → queue (reply payload replied c) ≡ queue c
reply-queue payload true c = queue-write (pong payload) c refl
reply-queue payload false c = refl

on_incoming-queue :
    (n missed : ℕ) (pending : Waiting) (f : Incoming) (replied : Bool) (c : Client)
    → queue (on_incoming n missed pending f replied c) ≡ queue c
unfolding on_incoming
on_incoming-queue n missed pending (ping_frame b) replied c = reply-queue b replied c
on_incoming-queue n missed pending close_frame replied c = queue-write close c refl
on_incoming-queue n missed pending f replied c = refl

-- The session closes the connection, if the signal is set.
closing-queue :
    (b : Bool) (p : Phase) (c d : Client)
    → queue d ≡ queue c
    → queue (if b then write close (at p c) else d) ≡ queue c
closing-queue true p c d e = queue-write close c refl
closing-queue false p c d e = e

module _ (options : WsOptions) (target : Text) (base64 : Base64) where
  begin_session-queue :
      (n : ℕ) (l : Waiting × Client) → queue (begin_session options target base64 n l) ≡ queue l.1
  begin_session-queue n (pending, d) =
      closing-queue d.stop (ended n graceful) d (at (session n 0 pending) d) refl

  load_persisted-queue :
      (now : ℕ) (purged listed : Bool) (c : Client)
      → queue (load_persisted target base64 now purged listed c).1 ≡ queue c
  unfolding load_persisted
  load_persisted-queue now purged listed c = ground arith

  load-queue :
      (n now : ℕ) (purged listed : Bool) (c : Client)
      → queue
          (begin_session options target base64 n (load_persisted target base64 now purged listed c))
        ≡ queue c
  load-queue n now purged listed c =
      begin_session-queue n (load_persisted target base64 now purged listed c)
      ∙ load_persisted-queue now purged listed c

  send_queued-IsFifo :
      (acc : List WsMessage) (errors n missed : ℕ) (ms : List WsMessage) (error : Option Text)
      (deleted : Bool) (c : Client)
      → c.outbox ≡ ms
      → IsFifo acc errors c
      → IsFifo acc
          (errors + write_errors (send_next error deleted ∷ []))
          (send_queued n missed ms error c)
  unfolding send_queued
  send_queued-IsFifo acc errors n missed [] none deleted c e f =
      IsFifo-same acc errors _ c c (omega arith) refl f
  send_queued-IsFifo acc errors n missed [] (some err) deleted c e f =
      IsFifo-same acc errors _ c c (omega arith) refl f
  send_queued-IsFifo acc errors n missed (m ∷ ms) none deleted c e f = record {
    fates = f.fates ++ delivered m ∷ [];
    ordered =
        f.ordered
        ∙ ap (λ l. taken f.fates ++ l) e
        ∙ sym (append_assoc (taken f.fates) (m ∷ []) ms)
        ∙ ap (λ l. l ++ ms) (sym (taken-append f.fates (delivered m ∷ [])));
    on_wire =
        from_queue-append c.frames (sent none m ∷ [])
        ∙ ap (λ l. l ++ m ∷ []) f.on_wire
        ∙ sym (arrived-append f.fates (delivered m ∷ []));
    excused = omega (arith, failures-append f.fates (delivered m ∷ []), f.excused);
    bounded = omega (arith, ap length e, f.bounded);
  }
  send_queued-IsFifo acc errors n missed (m ∷ ms) (some err) deleted c e f = record {
    fates = f.fates ++ unwritten m ∷ [];
    ordered =
        f.ordered
        ∙ ap (λ l. taken f.fates ++ l) e
        ∙ sym (append_assoc (taken f.fates) (m ∷ []) ms)
        ∙ ap (λ l. l ++ ms) (sym (taken-append f.fates (unwritten m ∷ [])));
    on_wire =
        f.on_wire ∙ sym (arrived-append f.fates (unwritten m ∷ []) ∙ append-nil (arrived f.fates));
    excused = omega (arith, failures-append f.fates (unwritten m ∷ []), f.excused);
    bounded = omega (arith, ap length e, f.bounded);
  }

  -- Another input leaves the queue as it is.
  same :
      {acc : List WsMessage} {errors : ℕ} (i : Input) (c d : Client)
      → queue d ≡ queue c
      → IsFifo acc errors c
      → IsFifo acc (errors + write_errors (i ∷ [])) d
  same {acc} {errors} i c d = IsFifo-same acc errors _ c d (omega arith)

  in_session-IsFifo :
      (acc : List WsMessage) (errors n missed : ℕ) (pending : Waiting) (i : Input) (c : Client)
      → IsFifo acc errors c
      → IsFifo acc
          (errors + write_errors (i ∷ []))
          (in_session options target base64 n missed pending i c)
  unfolding in_session send_stored
  in_session-IsFifo acc errors n missed pending see_stop c f =
      same see_stop c _ (closing-queue c.stop (ended n graceful) c c refl) f
  in_session-IsFifo acc errors n missed [] (send_next error deleted) c f =
      send_queued-IsFifo acc errors n missed c.outbox error deleted c refl f
  in_session-IsFifo acc errors n missed ((id, m) ∷ pending) (send_next none deleted) c f =
      same (send_next none deleted) c _ (queue-write (sent (some id) m) c refl) f
  in_session-IsFifo acc errors n missed ((id, m) ∷ pending) (send_next (some err) deleted) c f =
      same (send_next (some err) deleted) c _ refl f
  in_session-IsFifo acc errors n missed pending (incoming g replied) c f =
      same (incoming g replied) c _ (on_incoming-queue n missed pending g replied c) f
  in_session-IsFifo acc errors n missed pending (lost none) c f = same (lost none) c _ refl f
  in_session-IsFifo acc errors n missed pending (lost (some err)) c f =
      same (lost (some err)) c _ refl f
  in_session-IsFifo acc errors n missed pending (tick none) c f =
      same (tick none) c _ (queue-write heartbeat c refl) f
  in_session-IsFifo acc errors n missed pending (tick (some err)) c f =
      same (tick (some err)) c _ refl f
  in_session-IsFifo acc errors n missed pending i c f = same i c _ refl f

  on_task-IsFifo :
      (acc : List WsMessage) (errors : ℕ) (p : Phase) (i : Input) (c : Client)
      → IsFifo acc errors c
      → IsFifo acc (errors + write_errors (i ∷ [])) (on_task options target base64 p i c)
  unfolding on_task after_failure
  on_task-IsFifo acc errors (session n missed pending) i c f =
      in_session-IsFifo acc errors n missed pending i c f
  on_task-IsFifo acc errors (opening n) (load now purged listed) c f =
      same (load now purged listed) c _ (load-queue n now purged listed c) f
  on_task-IsFifo acc errors (connecting n) (refused err) c f = same (refused err) c _ refl f
  on_task-IsFifo acc errors (connecting n) (accepted sub) c f = same (accepted sub) c _ refl f
  on_task-IsFifo acc errors (waiting delay next) elapsed c f = same elapsed c _ refl f
  on_task-IsFifo acc errors (waiting delay next) see_stop c f = same see_stop c _ (ground arith) f
  on_task-IsFifo acc errors p proceed c f = same proceed c _ (go_on-queue options p c) f
  on_task-IsFifo acc errors p (request r) c f =
      same (request r) c _ (on_request-queue options p r c) f
  on_task-IsFifo acc errors p i c f = same i c _ refl f

  abbrev pub if_buffered : WsMessage → SendResult → List WsMessage
  if_buffered m buffered = m ∷ []
  if_buffered m _ = []

  -- What a call puts into the queue, as its result tells.
  abbrev pub accepted_by : Input → Client → List WsMessage
  accepted_by (call_send m id now stored) c =
      if_buffered m (send_message target base64 m id now stored c).0
  accepted_by i c = []

  -- The messages that the queue accepts in a run, in their order.
  abbrev pub all_accepted : List Input → Client → List WsMessage
  all_accepted [] c = []
  all_accepted (i ∷ inputs) c =
      accepted_by i c ++ all_accepted inputs (advance options target base64 i c)

  -- The result of a call and what it does to the queue.
  SentTo : WsMessage → Client → SendResult × Client → Type 0
  SentTo m c r =
      (if_buffered m r.0 ≡ m ∷ [])
        × (queue r.1 ≡ (c.outbox ++ m ∷ [], from_queue c.frames))
        × (length c.outbox < outbox_capacity)
      ⊎ (if_buffered m r.0 ≡ []) × (queue r.1 ≡ queue c)

  persist_overflow-SentTo :
      (m : WsMessage) (id now : ℕ) (stored : Bool) (c : Client)
      → SentTo m c (persist_overflow target base64 m id now stored c)
  unfolding SentTo persist_overflow
  persist_overflow-SentTo m id now stored c = elim (Option-cases c.rows) [
    | inl e ↦ rw (e, persist_overflow) (inr (refl, refl))
    | inr (rows, e) ↦ elim (Bool-cases stored) [
      | inl kept ↦ rw (e, kept, persist_overflow) (inr (refl, refl))
      | inr left ↦ rw (e, left, persist_overflow) (inr (refl, refl))
    ]
  ]

  send_message-SentTo :
      (m : WsMessage) (id now : ℕ) (stored : Bool) (c : Client)
      → SentTo m c (send_message target base64 m id now stored c)
  unfolding SentTo send_message
  send_message-SentTo m id now stored c = elim (Bool-cases (is_finished c.phase)) [
    | inl over ↦ rw (over, send_message) (inr (refl, refl))
    | inr on ↦ elim (Bool-cases (ltb (length c.outbox) outbox_capacity)) [
      | inl room ↦ rw (on, room, send_message) (inl (refl, refl, ground arith))
      | inr full ↦ rw (on, full, send_message) (persist_overflow-SentTo m id now stored c)
    ]
  ]

  SentTo-IsFifo :
      (acc : List WsMessage) (errors : ℕ) (m : WsMessage) (c : Client) (r : SendResult × Client)
      → SentTo m c r
      → IsFifo acc errors c
      → IsFifo (acc ++ if_buffered m r.0) (errors + 0) r.1
  unfolding SentTo
  SentTo-IsFifo acc errors m c r (inl (one, q, room)) f = record {
    fates = f.fates;
    ordered =
        ap (λ l. acc ++ l) one
        ∙ ap (λ l. l ++ m ∷ []) f.ordered
        ∙ append_assoc (taken f.fates) c.outbox (m ∷ [])
        ∙ ap (λ p. taken f.fates ++ p.0) (sym q);
    on_wire = ap (λ p. p.1) q ∙ f.on_wire;
    excused = omega (arith, f.excused);
    bounded = omega (arith, ap (λ p. length p.0) q, length-append c.outbox (m ∷ []));
  }
  SentTo-IsFifo acc errors m c r (inr (zero', q)) f =
      IsFifo-cast acc _ errors (errors + 0) r.1 (ap (λ l. acc ++ l) zero' ∙ append-nil acc)
        (omega arith) (IsFifo-same acc errors errors c r.1 (omega arith) q f)

  send_message-IsFifo :
      (acc : List WsMessage) (errors : ℕ) (m : WsMessage) (id now : ℕ) (stored : Bool) (c : Client)
      → IsFifo acc errors c
      → IsFifo
          (acc ++ accepted_by (call_send m id now stored) c)
          (errors + 0)
          (send_message target base64 m id now stored c).1
  send_message-IsFifo acc errors m id now stored c =
      SentTo-IsFifo acc errors m c (send_message target base64 m id now stored c)
        (send_message-SentTo m id now stored c)

  advance-IsFifo :
      (acc : List WsMessage) (errors : ℕ) (i : Input) (c : Client)
      → IsFifo acc errors c
      → IsFifo
          (acc ++ accepted_by i c)
          (errors + write_errors (i ∷ []))
          (advance options target base64 i c)
  unfolding advance ask_stop
  advance-IsFifo acc errors (call_send m id now stored) c f =
      send_message-IsFifo acc errors m id now stored c f
  advance-IsFifo acc errors call_stop c f = quiet acc _ _ (same call_stop c _ refl f)
  advance-IsFifo acc errors stop_returns c f = quiet acc _ _ (same stop_returns c _ refl f)
  advance-IsFifo acc errors i c f = quiet acc _ _ (on_task-IsFifo acc errors c.phase i c f)

  run-IsFifo_from :
      (is : List Input) (acc : List WsMessage) (errors : ℕ) (c : Client)
      → IsFifo acc errors c
      → IsFifo
          (acc ++ all_accepted is c)
          (errors + write_errors is)
          (run options target base64 is c)
  unfolding run
  run-IsFifo_from [] acc errors c f =
      IsFifo-cast acc (acc ++ []) errors (errors + 0) c (append-nil acc) (omega arith) f
  run-IsFifo_from (i ∷ is) acc errors c f =
      let d = advance options target base64 i c in
      IsFifo-cast ((acc ++ accepted_by i c) ++ all_accepted is d) _
        (errors + write_errors (i ∷ []) + write_errors is) _ (run options target base64 is d)
        (sym (append_assoc acc (accepted_by i c) (all_accepted is d)))
        (omega (arith, write_errors-cons i is))
        (run-IsFifo_from is (acc ++ accepted_by i c) (errors + write_errors (i ∷ [])) d
          (advance-IsFifo acc errors i c f))

  -- Whatever happens to a client, connections that break and come back included: the messages that its
  -- queue accepted, in their order, are some that were taken from it and then those that wait, at most
  -- 1024. What was written to a connection for the queue is exactly those that were taken, each once and
  -- in this order, but for some that were lost; and no more were lost than writes of a message failed.
  pub run-IsFifo :
      (rows : Option Table) (inputs : List Input)
      → IsFifo
          (all_accepted inputs (connect_with_store rows))
          (write_errors inputs)
          (run options target base64 inputs (connect_with_store rows))
  run-IsFifo rows inputs =
      IsFifo-cast (all_accepted inputs (connect_with_store rows)) _ (0 + write_errors inputs) _
        (run options target base64 inputs (connect_with_store rows)) refl (omega arith)
        (run-IsFifo_from inputs [] 0 (connect_with_store rows) (record {
          fates = [];
          ordered = refl;
          on_wire = refl;
          excused = omega arith;
          bounded = omega arith;
        }))
