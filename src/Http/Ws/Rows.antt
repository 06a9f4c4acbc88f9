-- ===== src/Http/Ws/Rows.antt =====
-- The rows of the table of messages, and the steps that leave it as it is.
use rust_fox.Prelude.{
  ℕ, ◌≡◌, refl, sym, ap, ◌∙◌, ◌⊎◌, inl, inr, Bool, true, List, [], ◌∷◌, ◌++◌, Option, none, some,
  keep, eqb, eqb_iff, Bool-cases, list_eq, nat_eq, arith,
}
use mathlib.Core.Path.{subst}
use rust_fox.Prelude.Text.{Text}
use rust_fox.Http.Ws.{WsMessage, WsOptions, Table, WsMessageRow, delete_ws_messages}
use rust_fox.Http.Ws.Client.{
  graceful, broken, Waiting, Phase, outer, attempting, ended, Client, Incoming, ping_frame,
}
use rust_fox.Http.Ws.Task.{
  forget, go_on, on_request, after_failure, after_session, send_queued, on_incoming,
}

abbrev pub In : WsMessageRow → Table → Type 0
In r [] = ⊥
In r (q ∷ rows) = (q ≡ r) ⊎ In r rows

abbrev pub IsStored : WsMessageRow → Option Table → Type 0
IsStored r none = ⊥
IsStored r (some rows) = In r rows

pub In-append : (r : WsMessageRow) (xs ys : Table) → In r xs → In r (xs ++ ys)
In-append r [] ys h = elim h [ ]
In-append r (x ∷ xs) ys (inl e) = inl e
In-append r (x ∷ xs) ys (inr h) = inr (In-append r xs ys h)

pub In-keep :
    (p : WsMessageRow → Bool) (r : WsMessageRow) (xs : Table)
    → p r ≡ true
    → In r xs
    → In r (keep p xs)
In-keep p r [] k h = h
In-keep p r (x ∷ xs) k (inl e) = rw (ap p e ∙ k) (inl e)
In-keep p r (x ∷ xs) k (inr h) = elim (Bool-cases (p x)) [
  | inl stays ↦ rw stays (inr (In-keep p r xs k h))
  | inr goes ↦ rw goes (In-keep p r xs k h)
]

pub stays : (r : WsMessageRow) {x y : Option Table} → y ≡ x → IsStored r x → IsStored r y
stays r e h = subst (IsStored r) (sym e) h

module _ (options : WsOptions) where
  pub go_on-rows : (p : Phase) (c : Client) → (go_on options p c).rows ≡ c.rows
  unfolding go_on after_session
  go_on-rows outer c = ground arith
  go_on-rows (ended n graceful) c = ground arith
  go_on-rows (ended n (broken reason)) c = ground arith
  go_on-rows p c = refl

  pub on_request-rows :
      (p : Phase) (r : Option Text) (c : Client) → (on_request options p r c).rows ≡ c.rows
  unfolding on_request after_failure
  on_request-rows (attempting n) none c = ground arith
  on_request-rows (attempting n) (some reason) c = ground arith
  on_request-rows p r c = refl

pub on_incoming-rows :
    (n missed : ℕ) (pending : Waiting) (f : Incoming) (replied : Bool) (c : Client)
    → (on_incoming n missed pending f replied c).rows ≡ c.rows
unfolding on_incoming
on_incoming-rows n missed pending (ping_frame b) replied c = ground arith
on_incoming-rows n missed pending f replied c = refl

pub send_queued-rows :
    (n missed : ℕ) (ms : List WsMessage) (error : Option Text) (c : Client)
    → (send_queued n missed ms error c).rows ≡ c.rows
unfolding send_queued
send_queued-rows n missed [] error c = refl
send_queued-rows n missed (m ∷ ms) none c = refl
send_queued-rows n missed (m ∷ ms) (some err) c = refl

-- Deleting a row removes no row of another id.
pub forget-IsStored :
    (r : WsMessageRow) (id : ℕ) (rows : Option Table)
    → IsStored r rows
    → IsStored r (forget id rows) ⊎ (id ≡ r.id)
unfolding delete_ws_messages
forget-IsStored r id none h = inl h
forget-IsStored r id (some rows) h = elim (Bool-cases (eqb r.id id)) [
  | inl same ↦ inr (sym ((eqb_iff r.id id).0 same))
  | inr apart ↦ inl (In-keep _ r rows (ground arith) h)
]
