-- ===== src/Network/Bounded/Linked.antt =====
-- A run of the threads that `main` of BLE_Scanner/src/VVDNBLEMeshStack.c starts, over queues of limited
-- size, from the program's start to a link with a peripheral.
use ble_parking_gate_way.Prelude.{
  ℕ, ◌≤◌, refl, List, [], ◌++◌, map, Bytes, Memory, length, In, inl, arith,
}
use ble_parking_gate_way.Receiver.Frames.{All, wire}
use ble_parking_gate_way.Drivers.{Queue}
use ble_parking_gate_way.Uart.Log.{messages_on, length-messages_on}
use ble_parking_gate_way.Uart.Answers.{Traffic, item_of, IsPlain, delivered, thread-delivered}
use ble_parking_gate_way.Start.{Thread, uart_cmd_rx_thread, central_mode_thread}
use ble_parking_gate_way.Network.Queues
use ble_parking_gate_way.Network.Queues.{Queued, central_alone, central_takes}
use ble_parking_gate_way.Network.Queues.Refines.{Reach-InOrder}
use ble_parking_gate_way.Network.Queues.Turns.{IsKept}
use ble_parking_gate_way.Network.Queues.Linked.{Conversation, HasLink, Conversation-HasLink}
use ble_parking_gate_way.Network.Bounded.{Bounded, turn, Later, next, begin}
use ble_parking_gate_way.Network.Bounded.Limits.{Later-Reach}
use ble_parking_gate_way.Network.Bounded.Room.{Fits, reads_all}

module _ (limit : ℕ) (threads : List Thread) (s0 : Bounded) (more : Bytes) where
  -- Such a state follows, and these bytes have not been sent yet.
  abbrev pub IsLater : Queued → Type 0
  IsLater s = Later limit threads s0 (record { queued = s; wire = more })

  -- `CentralModeThread` sends no message, so that it never waits for room.
  Later-IsKept : In central_mode_thread threads → IsKept IsLater
  Later-IsKept mine = record {
    alone =
        λ i silent same l. next l (turn (central_alone i silent same) mine (λ q. inl refl) refl);
    takes = λ i asked waits got same l.
        (next l (turn (central_takes i asked waits got same) mine (λ q. inl refl) refl));
  }

-- Traffic that is a conversation for an address leads to a link, where each turn is one step.
pub linked_limited :
    (limit : ℕ) (threads : List Thread) (rx_packet buffer_rx : Memory) (address : Bytes)
    (ts : List Traffic) (more : Bytes)
    → In uart_cmd_rx_thread threads
    → In central_mode_thread threads
    → All IsPlain ts
    → Conversation address (messages_on Queue.command_resp (delivered ts))
    → length (delivered ts) ≤ limit
    → HasLink
        (IsLater limit threads (begin rx_packet buffer_rx (wire (map item_of ts) ++ more)) more)
        address
linked_limited limit threads rx_packet buffer_rx address ts more uart central plain talk few =
    let s0 = begin rx_packet buffer_rx (wire (map item_of ts) ++ more) in
    let (m, read) = thread-delivered ts rx_packet s0.queued.net.gateway plain in
    let fits : Fits limit (λ q. []) (record s0.queued.net.gateway { sent = delivered ts }) =
      λ q mine. (let bound = length-messages_on q (delivered ts) in omega (arith, bound, few)) in
    let (pending, l) =
      reads_all (wire (map item_of ts)) more Queues.Reach.here uart refl read fits in
    let reached : (s : Queued)
        → IsLater limit threads s0 more s
        → Queues.Reach rx_packet buffer_rx s =
      λ s way. Later-Reach way Queues.Reach.here in
    Conversation-HasLink (Later-IsKept limit threads s0 more central) reached l refl
      ((Reach-InOrder (reached _ l)).from_uart Queue.command_resp refl) ((m, refl), refl) talk
