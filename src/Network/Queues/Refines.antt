-- ===== src/Network/Queues/Refines.antt =====
-- What the threads make of queues that hold messages is among what they make of `Network`'s, where
-- `msgrcv` yields any message that was sent.
use ble_parking_gate_way.Prelude.{
  ℕ, ◌≡◌, refl, ◌∙◌, ap, sym, true, List, [], ◌∷◌, ◌++◌, append_assoc, append-nil, Bytes, Memory,
  take-append-drop, drop-append, In, first, later, In-append_left, In-append_right, Holds, Holds-ok,
  Bool-cases, ◌⊎◌, inl, inr, arith,
}
use mathlib.Core.Path.{subst, ap₂}
use ble_parking_gate_way.Drivers.{Queue, Message, is_same, is_same_eq, sys_mq_send}
use ble_parking_gate_way.Receiver.{receive}
use ble_parking_gate_way.Router.{Gateway}
use ble_parking_gate_way.Uart.Kept.{is_uart_queue}
use ble_parking_gate_way.Uart.Log.{messages_on, messages_on-append, Extends, handle-Extends}
use ble_parking_gate_way.Pipe.{pipe_0000}
use ble_parking_gate_way.Network
use ble_parking_gate_way.Network.Queues.{
  Queued, deliver, take_from, added, Received, oldest, stale, Step, byte, central_alone,
  central_takes, pipe, forward, Reach, here, next,
}

-- Every message that was sent is taken or still on its queue, in the order of sending.
pub record InOrder (s : Queued) : Type 0 where
  pub from_uart :
      (q : Queue)
      → is_uart_queue q ≡ true
      → s.taken q ++ s.pending q ≡ messages_on q s.net.gateway.sent
  pub from_pipe :
      s.taken Queue.peer_device ++ s.pending Queue.peer_device
      ≡ messages_on Queue.peer_device s.net.forwarded

pub added_more : (g g' : Gateway) → (h : Extends g.sent g') → added g g' ≡ h.0
added_more g g' (more, same, none_sent) = rw same (drop-append g.sent more)

taken-kept :
    (queue q : Queue) (n : ℕ) (s : Queued)
    → (take_from queue n s).taken q ++ (take_from queue n s).pending q ≡ s.taken q ++ s.pending q
taken-kept queue q n s = elim (Bool-cases (is_same queue q)) [
  | inl h ↦
      rw h (
        append_assoc (s.taken q) _ _
        ∙ ap (λ xs. s.taken q ++ xs) (take-append-drop n (s.pending q)))
  | inr h ↦ rw h refl
]

pipe_0000-peer_device :
    (buff forward_data_buff : Memory)
    → Holds (λ (m : Message). m.0 ≡ Queue.peer_device) (pipe_0000 buff forward_data_buff)
unfolding pipe_0000 sys_mq_send
pipe_0000-peer_device buff forward_data_buff = ground arith

not_from_pipe :
    (q : Queue) (m : Message)
    → is_uart_queue q ≡ true
    → m.0 ≡ Queue.peer_device
    → messages_on q (m ∷ []) ≡ []
not_from_pipe Queue.peer_device m mine e = cc
not_from_pipe q m mine e = rw e refl

-- What is delivered on a queue is what was sent on it.
deliver-kept :
    (q : Queue) (taken pending : List Bytes) (sent more : List Message)
    → taken ++ pending ≡ messages_on q sent
    → taken ++ (pending ++ messages_on q more) ≡ messages_on q (sent ++ more)
deliver-kept q taken pending sent more h =
    sym (append_assoc taken pending _)
    ∙ ap (λ xs. xs ++ messages_on q more) h
    ∙ sym (messages_on-append q sent more)

-- What is delivered elsewhere changes nothing.
deliver-elsewhere :
    (q : Queue) (taken pending : List Bytes) (more : List Message)
    → messages_on q more ≡ []
    → taken ++ (pending ++ messages_on q more) ≡ taken ++ pending
deliver-elsewhere q taken pending more h = rw h (ap (λ xs. taken ++ xs) (append-nil pending))

module _ (s : Queued) (inv : InOrder s) where
  byte-InOrder :
      (b : ℕ) (g : Gateway)
      → Extends s.net.gateway.sent g
      → InOrder (record s {
        net = record s.net { receiver = (receive s.net.receiver b).0; gateway = g };
        pending = deliver s.pending (added s.net.gateway g);
      })
  byte-InOrder b g (more, same, none_sent) =
      let e = added_more s.net.gateway g (more, same, none_sent) in
      record {
        from_uart = λ q mine.
            ap (λ ms. s.taken q ++ (s.pending q ++ messages_on q ms)) e
            ∙ deliver-kept q (s.taken q) (s.pending q) s.net.gateway.sent more
                (inv.from_uart q mine)
            ∙ ap (messages_on q) (sym same);
        from_pipe =
            ap
              (λ ms.
                s.taken Queue.peer_device
                ++ (s.pending Queue.peer_device ++ messages_on Queue.peer_device ms))
              e
            ∙ deliver-elsewhere Queue.peer_device (s.taken Queue.peer_device)
                (s.pending Queue.peer_device) more none_sent
            ∙ inv.from_pipe;
      }

  pipe-InOrder :
      (got : ℕ) (sent : Message)
      → sent.0 ≡ Queue.peer_device
      → InOrder (record (take_from Queue.pipe_0 got s) {
        net = record s.net { forwarded = s.net.forwarded ++ sent ∷ [] };
        pending = deliver (take_from Queue.pipe_0 got s).pending (sent ∷ []);
      })
  pipe-InOrder got sent there =
      let t = take_from Queue.pipe_0 got s in
      record {
        from_uart = λ q mine.
            deliver-elsewhere q (t.taken q) (t.pending q) (sent ∷ [])
              (not_from_pipe q sent mine there)
            ∙ taken-kept Queue.pipe_0 q got s
            ∙ inv.from_uart q mine;
        from_pipe =
            deliver-kept Queue.peer_device (s.taken Queue.peer_device) (s.pending Queue.peer_device)
              s.net.forwarded (sent ∷ []) inv.from_pipe;
      }

Step-InOrder : {s t : Queued} → Step s t → InOrder s → InOrder t
Step-InOrder {s} (byte b e) inv = byte-InOrder s inv b _ (
    Holds-ok (Extends s.net.gateway.sent) _ e
      (handle-Extends s.net.gateway (receive s.net.receiver b).1))
Step-InOrder {s} (central_alone i silent d) inv = record {
  from_uart = inv.from_uart;
  from_pipe = inv.from_pipe;
}
Step-InOrder {s} (central_takes i asked waits got d) inv = record {
  from_uart = λ q mine. taken-kept Queue.command_resp q 1 s ∙ inv.from_uart q mine;
  from_pipe = inv.from_pipe;
}
Step-InOrder {s} (pipe buff forward_data_buff {got} {sent} waits e) inv =
    pipe-InOrder s inv got sent (
      Holds-ok (λ (m : Message). m.0 ≡ Queue.peer_device) _ e
        (pipe_0000-peer_device _ forward_data_buff))
Step-InOrder {s} (forward buffer status replies n {got} waits e few) inv = record {
  from_uart = λ q mine.
      taken-kept Queue.write_rsp q n (take_from Queue.peer_device got s)
      ∙ taken-kept Queue.peer_device q got s
      ∙ inv.from_uart q mine;
  from_pipe = taken-kept Queue.peer_device Queue.peer_device got s ∙ inv.from_pipe;
}

-- In every reachable state, whatever the controller sends and in whatever order the threads take their
-- turns, each queue is first in, first out, and loses nothing: what was taken from a queue, and then
-- what is still on it, are exactly the messages sent on it, in the order of sending.
pub Reach-InOrder :
    {rx_packet buffer_rx : Memory} {s : Queued} → Reach rx_packet buffer_rx s → InOrder s
Reach-InOrder here = record { from_uart = λ q mine. refl; from_pipe = refl }
Reach-InOrder (next r step) = Step-InOrder step (Reach-InOrder r)

In-cons : {A : Type 0} {a : A} (x : A) (xs : List A) → In a (x ∷ xs) → (x ≡ a) ⊎ In a xs
In-cons x xs (first e) = inl e
In-cons x xs (later h) = inr h

In-messages_on :
    (q : Queue) (ms : List Message) {bytes : Bytes} → In bytes (messages_on q ms) → In (q, bytes) ms
In-messages_on q [] h = elim h [ ]
In-messages_on q (m ∷ ms) {bytes} h = elim (Bool-cases (is_same m.0 q)) [
  | inl e ↦ elim (In-cons m.1 (messages_on q ms) (rw e at h)) [
    | inl same ↦ first (ap₂ (λ (queue : Queue) (b : Bytes). (queue, b)) (is_same_eq m.0 q e) same)
    | inr more ↦ later (In-messages_on q ms more)
  ]
  | inr e ↦ later (In-messages_on q ms (rw e at h))
]

-- The first message of a queue is one of those that were sent on it.
first_sent :
    (q : Queue) (taken pending rest : List Bytes) (ms : List Message) {bytes : Bytes}
    → taken ++ pending ≡ messages_on q ms
    → pending ≡ bytes ∷ rest
    → In (q, bytes) ms
first_sent q taken pending rest ms {bytes} kept waits =
    In-messages_on q ms
      (subst (In bytes) kept (In-append_right taken pending (rw waits (first refl))))

-- So is a message that is in its reader's buffer.
received_sent :
    (q : Queue) (s : Queued) (ms : List Message) {bytes : Bytes} {n : ℕ}
    → s.taken q ++ s.pending q ≡ messages_on q ms
    → Received q s bytes n
    → In (q, bytes) ms
received_sent q s ms kept (oldest {rest} one waits) =
    first_sent q (s.taken q) (s.pending q) rest ms kept waits
received_sent q s ms {bytes} kept (stale before none_got was) =
    let held : In bytes (s.taken q) = rw was (In-append_right before _ (first refl)) in
    In-messages_on q ms (subst (In bytes) kept (In-append_left (s.taken q) (s.pending q) held))

Step-simulated : {s t : Queued} → Step s t → InOrder s → Network.Step s.net t.net
Step-simulated (byte b e) inv = Network.Step.byte b e
Step-simulated {s} (central_alone i silent d) inv =
    Network.Step.central_turn i (rw silent Network.Receivable.failed) d
Step-simulated {s} (central_takes i {bytes} {rest} asked waits got d) inv =
    let sent =
      first_sent Queue.command_resp (s.taken Queue.command_resp) (s.pending Queue.command_resp) rest
        s.net.gateway.sent (inv.from_uart Queue.command_resp refl) waits in
    Network.Step.central_turn i (rw got (Network.Receivable.message sent)) d
Step-simulated {s} (pipe buff forward_data_buff waits e) inv =
    Network.Step.pipe buff forward_data_buff
      (received_sent Queue.pipe_0 s s.net.gateway.sent (inv.from_uart Queue.pipe_0 refl) waits) e
Step-simulated {s} (forward buffer status replies n waits e few) inv =
    Network.Step.forward buffer status replies
      (received_sent Queue.peer_device s s.net.forwarded inv.from_pipe waits) e

-- Every state that the threads reach over queues that hold messages, first in and first out, they reach
-- in `Network`, too, where `msgrcv` yields any message that was sent on its queue.
pub Reach-simulated :
    {rx_packet buffer_rx : Memory} {s : Queued}
    → Reach rx_packet buffer_rx s
    → Network.Reach rx_packet buffer_rx s.net
Reach-simulated here = Network.Reach.here
Reach-simulated (next r step) =
    Network.Reach.next (Reach-simulated r) (Step-simulated step (Reach-InOrder r))
