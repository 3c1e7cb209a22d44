-- ===== src/Network/Bounded/Room.antt =====
-- How far `UartCmdRxThread` of BLE_Scanner/src/UartCmdRxThread.c reads, where its queues have room.
use ble_parking_gate_way.Prelude.{
  ℕ, ◌+◌, ◌≤◌, ◌≡◌, inl, inr, refl, ◌∙◌, ap, true, false, List, [], ◌∷◌, ◌++◌, Bytes, Memory,
  length, length-append, In, arith, ok, Bool-cases, Holds-ok,
}
use mathlib.Core.Path.{subst}
use ble_parking_gate_way.Drivers.{Queue, Message, is_same_eq}
use ble_parking_gate_way.Receiver.{Receiver, receive}
use ble_parking_gate_way.Router.{Gateway}
use ble_parking_gate_way.Uart.{handle, thread}
use ble_parking_gate_way.Uart.Kept.{is_uart_queue}
use ble_parking_gate_way.Uart.Log.{messages_on, messages_on-append, Extends, handle-Extends}
use ble_parking_gate_way.Start.{Thread, uart_cmd_rx_thread}
use ble_parking_gate_way.Network.Queues
use ble_parking_gate_way.Network.Queues.{Queued, deliver, added, byte}
use ble_parking_gate_way.Network.Queues.Refines.{Reach-InOrder, added_more}
use ble_parking_gate_way.Network.Queues.Relayed.{heard_by}
use ble_parking_gate_way.Network.Bounded.{Bounded, HasRoom, Step, turn, Later, here, next}
use ble_parking_gate_way.Network.Bounded.Limits.{Later-append}
use ble_parking_gate_way.Network.Bounded.Stream.{thread-Extends, bind-ok}

-- The messages sent on each queue of the thread are no more than the limit, but for those taken.
abbrev pub Fits : ℕ → (Queue → List Bytes) → Gateway → Type 0
Fits limit taken g =
    (q : Queue) → is_uart_queue q ≡ true → length (messages_on q g.sent) ≤ length (taken q) + limit

fewer_before :
    (q : Queue) (g g' : Gateway) (more : List Message)
    → g'.sent ≡ g.sent ++ more
    → length (messages_on q g.sent) ≤ length (messages_on q g'.sent)
fewer_before q g g' more same = omega (
  arith,
  ap (λ sent. length (messages_on q sent)) same,
  ap length (messages_on-append q g.sent more),
  length-append (messages_on q g.sent) (messages_on q more),
)

elsewhere : (q : Queue) → is_uart_queue q ≡ false → q ≡ Queue.peer_device
elsewhere q h = is_same_eq q Queue.peer_device (ground arith)

byte-HasRoom :
    {limit : ℕ} {rx_packet buffer_rx : Memory} {s : Queued} (b : ℕ) {g : Gateway}
    → Queues.Reach rx_packet buffer_rx s
    → handle s.net.gateway (receive s.net.receiver b).1 ≡ ok g
    → Fits limit s.taken g
    → HasRoom limit s.pending (added s.net.gateway g)
byte-HasRoom {limit} {s} b {g} r e fits q = elim (Bool-cases (is_uart_queue q)) [
  | inl mine ↦
      let order = (Reach-InOrder (Queues.Reach.next r (byte b e))).from_uart q mine in
      inr (
        omega (
          arith,
          ap length order,
          length-append (s.taken q) (deliver s.pending (added s.net.gateway g) q),
          fits q mine,
        ))
  | inr other ↦
      let (more, same, none_sent) =
        Holds-ok (Extends s.net.gateway.sent) _ e
          (handle-Extends s.net.gateway (receive s.net.receiver b).1) in
      inl (
        ap (messages_on q) (added_more s.net.gateway g (more, same, none_sent))
        ∙ ap (λ queue. messages_on queue more) (elsewhere q other)
        ∙ none_sent)
]

-- The bytes are read, and the other threads rest.
abbrev pub LaterBytes : ℕ → List Thread → Bytes → Bounded → Receiver × Gateway → Type 0
LaterBytes limit threads more s out =
    (pending : Queue → List Bytes) × Later limit threads s
      (record { queued = heard_by s.queued out pending; wire = more })

module _ {limit : ℕ} {threads : List Thread} where
  -- A run of bytes whose messages all find room can be read to its end.
  pub reads_all :
      {rx_packet buffer_rx : Memory} (bs more : Bytes) {s : Bounded} {out : Receiver × Gateway}
      → Queues.Reach rx_packet buffer_rx s.queued
      → In uart_cmd_rx_thread threads
      → s.wire ≡ bs ++ more
      → thread s.queued.net.receiver s.queued.net.gateway bs ≡ ok out
      → Fits limit s.queued.taken out.1
      → LaterBytes limit threads more s out
  unfolding thread
  reads_all [] more {s} {out} r mine same read fits =
      Holds-ok (LaterBytes limit threads more s) _ read (
        subst
          (λ left. LaterBytes limit threads left s (s.queued.net.receiver, s.queued.net.gateway))
          same (s.queued.pending, here))
  reads_all (b ∷ bs) more {s} {out} r mine same read fits =
      let net = s.queued.net in
      let (g, first, rest) =
        bind-ok (handle net.gateway (receive net.receiver b).1)
          (λ g. thread (receive net.receiver b).0 g bs) read in
      let (later_ms, all) = thread-Extends bs (receive net.receiver b).0 g rest in
      let small : Fits limit s.queued.taken g = λ q own.
        (let few = fits q own in omega (arith, few, fewer_before q g out.1 later_ms all)) in
      let step : Step limit threads s _ =
        turn (byte b first) mine (byte-HasRoom b r first small) same in
      let (pending, l) =
        reads_all bs more (Queues.Reach.next r (byte b first)) mine refl rest fits in
      (pending, Later-append (next here step) l)
