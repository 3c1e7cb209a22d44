-- ===== src/Uart/Log.antt =====
-- The messages of `UartCmdRxThread` in BLE_Scanner/src/UartCmdRxThread.c: what is sent stays sent, and
-- the thread sends on its own queues.
use ble_parking_gate_way.Prelude.{
  ◌≤◌, length, ◌≡◌, refl, ◌∙◌, ap, sym, true, List, [], ◌∷◌, ◌++◌, append_assoc, append-nil, Option,
  Bytes, Holds, if◌then◌else◌, arith,
}
use ble_parking_gate_way.Drivers.{Queue, is_same, Message}
use ble_parking_gate_way.Receiver.{Packet}
use ble_parking_gate_way.Router.{Gateway}
use ble_parking_gate_way.Uart.{handle}
use ble_parking_gate_way.Uart.Kept.{is_uart_queue, handle-Holds}

-- What is sent on a queue, oldest first.
abbrev pub messages_on : Queue → List Message → List Bytes
messages_on q [] = []
messages_on q (m ∷ ms) = if is_same m.0 q then m.1 ∷ messages_on q ms else messages_on q ms

pub messages_on-append :
    (q : Queue) (xs ys : List Message)
    → messages_on q (xs ++ ys) ≡ messages_on q xs ++ messages_on q ys
messages_on-append q [] ys = refl
messages_on-append q (x ∷ xs) ys = ground (arith, messages_on-append q xs ys)

-- No queue gets more messages than there are.
pub length-messages_on : (q : Queue) (ms : List Message) → length (messages_on q ms) ≤ length ms
length-messages_on q [] = omega arith
length-messages_on q (m ∷ ms) = ground (arith, length-messages_on q ms)

-- The messages `sent` and then others, none of them for `Forward_MSG_Queue_Thread`.
abbrev pub Extends : List Message → Gateway → Type 0
Extends sent g =
    (more : List Message) × (g.sent ≡ sent ++ more) × (messages_on Queue.peer_device more ≡ [])

extended :
    (sent : List Message) (g : Gateway) (m : Message)
    → is_uart_queue m.0 ≡ true
    → Extends sent g
    → Extends sent (record g { sent = g.sent ++ m ∷ [] })
extended sent g m mine (more, same, none_sent) = (
  more ++ m ∷ [],
  ap (λ all. all ++ m ∷ []) same ∙ append_assoc sent more (m ∷ []),
  messages_on-append Queue.peer_device more (m ∷ []) ∙ ground (arith, none_sent),
)

-- A packet only adds to the messages that were sent.
pub handle-Extends : (g : Gateway) (p : Option Packet) → Holds (Extends g.sent) (handle g p)
handle-Extends g p =
    handle-Holds (Extends g.sent) (λ t m mine h. extended g.sent t m mine h) (λ t pac h. h)
      (λ t n h. h) g p ([], sym (append-nil g.sent), refl)
