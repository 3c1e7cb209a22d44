-- ===== src/Network/Queues/Relayed.antt =====
-- A run of the threads of BLE_Scanner/src/UartCmdRxThread.c over queues that hold messages, from the
-- program's start, that carries a peer's write to the UART and leaves nothing behind.
use ble_parking_gate_way.Prelude.{
  ℕ, ◌+◌, ◌≤◌, ◌≡◌, refl, ◌∙◌, ap, false, ◌&&◌, ◌==◌, List, [], ◌∷◌, ◌++◌, append-nil, Bytes,
  Memory, memcpy, length, Holds, Holds-ok, arith, drop,
}
use mathlib.Core.Path.{ap₂}
use ble_parking_gate_way.Drivers.{Queue}
use ble_parking_gate_way.Receiver.{Receiver, receive}
use ble_parking_gate_way.Router.{Gateway}
use ble_parking_gate_way.Router.Links.{ack_bytes}
use ble_parking_gate_way.Uart.{handle, thread}
use ble_parking_gate_way.Uart.Log.{messages_on}
use ble_parking_gate_way.Pipe.Relay.{forwarded}
use ble_parking_gate_way.Forward.{wrote, forward_msg}
use ble_parking_gate_way.Forward.Broadcast.{notification_of, write_of}
use ble_parking_gate_way.Relay.{peer_write, peer_write-relayed}
use ble_parking_gate_way.Network.Relayed.{read_by, after_byte, one_packet}
use ble_parking_gate_way.Network.Safety.{Reach-unconnected}
use ble_parking_gate_way.Network.Queues.{
  Queued, oldest, byte, pipe, forward, fresh, Reach, here, next,
}
use ble_parking_gate_way.Network.Queues.Refines.{Reach-InOrder, Reach-simulated}

-- The state after the bytes, for what has come onto the queues.
abbrev pub heard_by : Queued → Receiver × Gateway → (Queue → List Bytes) → Queued
heard_by s out pending = record s { net = read_by s.net out; pending = pending }

abbrev pub ReachBytes : Memory → Memory → Queued → Receiver × Gateway → Type 0
ReachBytes rx_packet buffer_rx s out =
    (pending : Queue → List Bytes) × Reach rx_packet buffer_rx (heard_by s out pending)

-- What `UartCmdRxThread` makes of a run of bytes is reached, the other threads resting.
pub Reach-bytes :
    {rx_packet buffer_rx : Memory} (bs : Bytes) {s : Queued}
    → Reach rx_packet buffer_rx s
    → Holds (ReachBytes rx_packet buffer_rx s) (thread s.net.receiver s.net.gateway bs)
unfolding thread
Reach-bytes [] {s} r = (s.pending, r)
Reach-bytes {rx_packet} {buffer_rx} (b ∷ bs) {s} r =
    after_byte (ReachBytes rx_packet buffer_rx s)
      (handle s.net.gateway (receive s.net.receiver b).1)
      (λ g. thread (receive s.net.receiver b).0 g bs) (λ g e. Reach-bytes bs (next r (byte b e)))

-- Where all four threads run, they relay what the peer writes: from the program's start, for any
-- write of the peer on connection 0 of 2 to 87 bytes that are neither a command nor a ping, they can
-- reach a state in which the write is acknowledged and has been written to the UART as a
-- notification and as an attribute write, `UartCmdRxThread` and `Forward_MSG_Queue_Thread` have
-- written nothing else, and the queues of the pipe and of the peers are empty again.
pub relayed_in_order :
    (rx_packet buffer_rx buff forward_data_buff buffer : Memory) (status : ℕ → ℕ)
    (state signature kind a b : ℕ) (rest : Bytes)
    → length rest ≤ 85
    → (a == 0x30 && b == 0x31) ≡ false
    → (a == 0x50 && b == 0x42) ≡ false
    → (let value = a ∷ b ∷ rest in
        (s : Queued) × Reach rx_packet buffer_rx s
        × (s.net.gateway.written ≡ ack_bytes 0x00 ∷ [])
        × (s.net.sender.written ≡ notification_of value ∷ write_of value ∷ [])
        × (s.pending Queue.pipe_0 ≡ [])
        × (s.pending Queue.peer_device ≡ []))
relayed_in_order rx_packet buffer_rx buff forward_data_buff buffer status state signature kind a b
      rest fits plain no_ping =
    let value = a ∷ b ∷ rest in
    let bytes = peer_write state signature kind value in
    let s0 = fresh rx_packet buffer_rx in
    let (p, g', cut, routed, told, acked, piped, served) =
      peer_write-relayed rx_packet buff forward_data_buff buffer s0.net.gateway status s0.net.sender
        state signature kind a b rest fits plain no_ping in
    let read = one_packet s0.net.receiver s0.net.gateway g' bytes p cut routed in
    let (pending, r1) =
      Holds-ok (ReachBytes rx_packet buffer_rx s0) _ read (Reach-bytes bytes here) in
    let arrived : pending Queue.pipe_0 ≡ bytes ∷ [] =
      (Reach-InOrder r1).from_uart Queue.pipe_0 refl ∙ ap (messages_on Queue.pipe_0) told in
    let idle : pending Queue.peer_device ≡ [] = (Reach-InOrder r1).from_pipe in
    let r2 = next r1 (pipe buff forward_data_buff {got = 1} (oldest refl arrived) piped) in
    let waits : pending Queue.peer_device ++ forwarded 0x01 value ∷ [] ≡ forwarded 0x01 value ∷ [] =
      ap (λ ms. ms ++ forwarded 0x01 value ∷ []) idle in
    let same : length (forwarded 0x01 value) ≡ length value + 3 = omega arith in
    let none_counted : g'.slave_count ≡ 0 = (Reach-unconnected (Reach-simulated r1)).1 in
    let called =
      ap₂
        (λ count size.
          forward_msg status count (memcpy buffer (forwarded 0x01 value)) size [] s0.net.sender)
        none_counted same in
    let step =
      forward buffer status [] 0 {got = 1} {bytes = forwarded 0x01 value} {left = []}
        {t = wrote (write_of value) (wrote (notification_of value) s0.net.sender)}
        (oldest refl waits) (called ∙ served) (omega arith) in
    (
      _,
      next r2 step,
      acked,
      refl,
      append-nil (drop 1 (pending Queue.pipe_0)) ∙ ap (drop 1) arrived,
      ap (drop 1) waits,
    )
