-- ===== src/Http/Ws/Signals.antt =====
-- What a call of `stop` does where the task hears it and where it does not, and what a failure leads
-- to without reconnection.
use rust_fox.Prelude.{ℕ, ◌≡◌, refl, ◌∙◌, Bool, true, false, [], ◌∷◌, Option, none, arith}
use rust_fox.Prelude.Text.{Text}
use rust_fox.Http.Ws.{open_state, closed_state, WsOptions, Base64}
use rust_fox.Http.Ws.Client.{
  SessionEnd, graceful, broken, Waiting, Phase, connecting, session, ended, waiting, Client,
  proceed, request, refused, accepted, load, see_stop, call_stop, stop_returns, is_finished,
  load_persisted, ask_stop,
}
use rust_fox.Http.Ws.Task.{
  run, on_request, on_task, go_on, after_failure, after_session, in_session, begin_session,
}

abbrev pub is_in_session : Phase → Bool
is_in_session (session n missed pending) = true
is_in_session _ = false

-- The task has ended in the state `Closed`.
abbrev pub IsClosed : Client → Type 0
IsClosed c = (is_finished c.phase ≡ true) × (c.current ≡ closed_state)

abbrev pub IsOpen : Client → Type 0
IsOpen c = (is_in_session c.phase ≡ true) × (c.current ≡ open_state) × (c.stop ≡ false)

module _ (options : WsOptions) (target : Text) (base64 : Base64) where
  -- In a session and in a delay, a call of `stop` is heard: the task ends in four inputs, in the state
  -- `Closed`.
  pub run-call_stop :
      (c : Client) (n missed delay : ℕ) (pending : Waiting)
      → IsClosed (
          run options target base64
            (call_stop ∷ see_stop ∷ proceed ∷ proceed ∷ [])
            (record c { phase = session n missed pending }))
        × IsClosed (
            run options target base64
              (call_stop ∷ see_stop ∷ proceed ∷ proceed ∷ [])
              (record c { phase = waiting delay n }))
  unfolding run on_task go_on in_session ask_stop
  run-call_stop c n missed delay pending = ((refl, refl), (refl, refl))

  load_persisted-keeps :
      (now : ℕ) (purged listed : Bool) (c : Client)
      → ((load_persisted target base64 now purged listed c).1.stop ≡ c.stop)
        × ((load_persisted target base64 now purged listed c).1.current ≡ c.current)
  unfolding load_persisted
  load_persisted-keeps now purged listed c = (ground arith, ground arith)

  begin_session-IsOpen :
      (n : ℕ) (l : Waiting × Client)
      → l.1.stop ≡ false
      → l.1.current ≡ open_state
      → IsOpen (begin_session options target base64 n l)
  begin_session-IsOpen n (pending, c) s o = rw s (refl, o, refl)

  -- While the task is in `connect_async`, a call of `stop` is lost: it returns in the state `Closed`, but
  -- once the connection is accepted the client is in a session, in the state `Open`, with no signal set.
  pub run-call_stop_lost :
      (c : Client) (n now : ℕ) (sub : Option Text) (purged listed : Bool)
      → c.stop ≡ false
      → ((run options target base64
            (call_stop ∷ stop_returns ∷ [])
            (record c { phase = connecting n })).current
          ≡ closed_state)
        × IsOpen (
            run options target base64
              (call_stop ∷ stop_returns ∷ accepted sub ∷ load now purged listed ∷ [])
              (record c { phase = connecting n }))
  unfolding run on_task ask_stop
  run-call_stop_lost c n now sub purged listed s =
      let opened =
        run options target base64 (call_stop ∷ stop_returns ∷ accepted sub ∷ [])
          (record c { phase = connecting n }) in
      (
        refl,
        begin_session-IsOpen n (load_persisted target base64 now purged listed opened)
            ((load_persisted-keeps now purged listed opened).0 ∙ s)
            (load_persisted-keeps now purged listed opened).1,
      )

  -- Without reconnection, a refused connection and a session that ended are followed by the next attempt
  -- with no delay between them, as long as the stop signal is not set.
  pub run-no_reconnect :
      (c : Client) (n : ℕ) (err : Text) (end : SessionEnd)
      → options.auto_reconnect ≡ false
      → c.stop ≡ false
      → ((run options target base64
            (refused err ∷ proceed ∷ request none ∷ [])
            (record c { phase = connecting n })).phase
          ≡ connecting 1)
        × ((run options target base64
              (proceed ∷ proceed ∷ request none ∷ [])
              (record c { phase = ended n end })).phase
            ≡ connecting 1)
  unfolding run on_task go_on on_request after_failure after_session
  run-no_reconnect c n err graceful auto s = rw (auto, s) (refl, refl)
  run-no_reconnect c n err (broken reason) auto s = rw (auto, s) (refl, refl)
