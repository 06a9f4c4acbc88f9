-- ===== src/Http/Ws/Delivery/Fates.antt =====
-- What becomes of the messages that the queue accepts, and how it is kept by a step.
use rust_fox.Prelude.{
  ℕ, ◌+◌, ◌≤◌, ◌≡◌, refl, sym, ap, ◌∙◌, List, [], ◌∷◌, ◌++◌, none, some, length, append-nil, arith,
}
use rust_fox.Http.Ws.{outbox_capacity, WsMessage}
use rust_fox.Http.Ws.Client.{Client, Input, send_next, Frame, sent, pong, heartbeat, close, write}

-- What became of a message that was taken from the queue.
pub data Fate : Type 0 where
  delivered unwritten : WsMessage → Fate

abbrev pub taken : List Fate → List WsMessage
taken [] = []
taken (delivered m ∷ fates) = m ∷ taken fates
taken (unwritten m ∷ fates) = m ∷ taken fates

abbrev pub arrived : List Fate → List WsMessage
arrived [] = []
arrived (delivered m ∷ fates) = m ∷ arrived fates
arrived (unwritten m ∷ fates) = arrived fates

abbrev pub failures : List Fate → ℕ
failures [] = 0
failures (delivered m ∷ fates) = failures fates
failures (unwritten m ∷ fates) = failures fates + 1

-- The written messages that come from the queue, not from the table.
abbrev pub from_queue : List Frame → List WsMessage
from_queue [] = []
from_queue (sent none m ∷ frames) = m ∷ from_queue frames
from_queue (sent (some id) m ∷ frames) = from_queue frames
from_queue (pong payload ∷ frames) = from_queue frames
from_queue (heartbeat ∷ frames) = from_queue frames
from_queue (close ∷ frames) = from_queue frames

-- The writes of a message that an environment lets fail.
abbrev pub write_errors : List Input → ℕ
write_errors [] = 0
write_errors (send_next (some err) deleted ∷ inputs) = write_errors inputs + 1
write_errors (i ∷ inputs) = write_errors inputs

-- Given the messages that the queue accepted and the number of writes that failed: the messages are
-- those that were taken and then those that wait; of those that were taken, the delivered ones are what
-- was written for the queue, in this order; no more were not written than writes failed; and no more
-- than the capacity wait.
pub record IsFifo (all_accepted : List WsMessage) (errors : ℕ) (c : Client) : Type 0 where
  pub fates : List Fate
  pub ordered : all_accepted ≡ taken fates ++ c.outbox
  pub on_wire : from_queue c.frames ≡ arrived fates
  pub excused : failures fates ≤ errors
  pub bounded : length c.outbox ≤ outbox_capacity

pub from_queue-append :
    (fs gs : List Frame) → from_queue (fs ++ gs) ≡ from_queue fs ++ from_queue gs
from_queue-append [] gs = refl
from_queue-append (sent none m ∷ fs) gs = ap (λ l. m ∷ l) (from_queue-append fs gs)
from_queue-append (sent (some id) m ∷ fs) gs = from_queue-append fs gs
from_queue-append (pong payload ∷ fs) gs = from_queue-append fs gs
from_queue-append (heartbeat ∷ fs) gs = from_queue-append fs gs
from_queue-append (close ∷ fs) gs = from_queue-append fs gs

from_queue-other :
    (fs : List Frame) (f : Frame)
    → from_queue (f ∷ []) ≡ []
    → from_queue (fs ++ f ∷ []) ≡ from_queue fs
from_queue-other fs f e =
    from_queue-append fs (f ∷ []) ∙ ap (λ l. from_queue fs ++ l) e ∙ append-nil (from_queue fs)

pub taken-append : (fs gs : List Fate) → taken (fs ++ gs) ≡ taken fs ++ taken gs
taken-append [] gs = refl
taken-append (delivered m ∷ fs) gs = ap (λ l. m ∷ l) (taken-append fs gs)
taken-append (unwritten m ∷ fs) gs = ap (λ l. m ∷ l) (taken-append fs gs)

pub arrived-append : (fs gs : List Fate) → arrived (fs ++ gs) ≡ arrived fs ++ arrived gs
arrived-append [] gs = refl
arrived-append (delivered m ∷ fs) gs = ap (λ l. m ∷ l) (arrived-append fs gs)
arrived-append (unwritten m ∷ fs) gs = arrived-append fs gs

pub failures-append : (fs gs : List Fate) → failures (fs ++ gs) ≡ failures fs + failures gs
failures-append [] gs = omega arith
failures-append (delivered m ∷ fs) gs = failures-append fs gs
failures-append (unwritten m ∷ fs) gs = omega (arith, failures-append fs gs)

-- What the statement is about.
abbrev pub queue : Client → List WsMessage × List WsMessage
queue c = (c.outbox, from_queue c.frames)

pub queue-write : (f : Frame) (c : Client) → from_queue (f ∷ []) ≡ [] → queue (write f c) ≡ queue c
queue-write f c e = ap (λ l. (c.outbox, l)) (from_queue-other c.frames f e)

pub IsFifo-same :
    (acc : List WsMessage) (errors errors' : ℕ) (c d : Client)
    → errors ≤ errors'
    → queue d ≡ queue c
    → IsFifo acc errors c
    → IsFifo acc errors' d
IsFifo-same acc errors errors' c d h s f = record {
  fates = f.fates;
  ordered = f.ordered ∙ ap (λ q. taken f.fates ++ q.0) (sym s);
  on_wire = ap (λ q. q.1) s ∙ f.on_wire;
  excused = omega (arith, f.excused);
  bounded = omega (arith, f.bounded, ap (λ q. length q.0) s);
}

pub IsFifo-cast :
    (acc acc' : List WsMessage) (errors errors' : ℕ) (c : Client)
    → acc' ≡ acc
    → errors ≤ errors'
    → IsFifo acc errors c
    → IsFifo acc' errors' c
IsFifo-cast acc acc' errors errors' c e h f = record {
  fates = f.fates;
  ordered = e ∙ f.ordered;
  on_wire = f.on_wire;
  excused = omega (arith, f.excused);
  bounded = f.bounded;
}

-- Nothing is accepted.
pub quiet :
    (acc : List WsMessage) (errors : ℕ) (c : Client)
    → IsFifo acc errors c
    → IsFifo (acc ++ []) errors c
quiet acc errors c = IsFifo-cast acc (acc ++ []) errors errors c (append-nil acc) (omega arith)

pub write_errors-cons :
    (i : Input) (is : List Input) → write_errors (i ∷ []) + write_errors is ≤ write_errors (i ∷ is)
write_errors-cons (send_next none deleted) is = omega arith
write_errors-cons (send_next (some err) deleted) is = omega arith
write_errors-cons i is = omega arith
