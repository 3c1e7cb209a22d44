-- ===== src/Network/Relayed.antt =====
-- A run of the threads of BLE_Scanner/src/UartCmdRxThread.c from the program's start that
-- carries a peer's write to the UART.
use ble_parking_gate_way.Prelude.{
  ℕ, ◌+◌, ◌≤◌, ◌≡◌, refl, ◌∙◌, false, ◌&&◌, ◌==◌, [], ◌∷◌, Bytes, Memory, memcpy, length, In, first,
  ok, Holds, Holds-ok, fault, Result, ◌>>=◌, arith,
}
use mathlib.Core.Path.{ap₂}
use ble_parking_gate_way.Drivers.{Queue}
use ble_parking_gate_way.Receiver.{Receiver, Packet, receive, run}
use ble_parking_gate_way.Router.{Gateway, route}
use ble_parking_gate_way.Router.Links.{ack_bytes}
use ble_parking_gate_way.Uart.{handle, thread}
use ble_parking_gate_way.Uart.Batch.{route_all, thread-route_all}
use ble_parking_gate_way.Pipe.Relay.{forwarded}
use ble_parking_gate_way.Forward.{wrote, forward_msg}
use ble_parking_gate_way.Forward.Broadcast.{notification_of, write_of}
use ble_parking_gate_way.Relay.{peer_write, peer_write-relayed}
use ble_parking_gate_way.Network.{Network, byte, pipe, forward, begin, Reach, here, next}
use ble_parking_gate_way.Network.Safety.{Reach-unconnected}

abbrev pub read_by : Network → Receiver × Gateway → Network
read_by s out = record s { receiver = out.0; gateway = out.1 }

pub after_byte :
    {B : Type 0} (P : B → Type 0) (o : Result Gateway) (f : Gateway → Result B)
    → ((g : Gateway) → o ≡ ok g → Holds P (f g))
    → Holds P (o >>= f)
after_byte P (ok g) f h = h g refl
after_byte P (fault e) f h = tt

-- What `UartCmdRxThread` makes of a run of bytes is reached, the other threads resting.
pub Reach-thread :
    {rx_packet buffer_rx : Memory} (bs : Bytes) {s : Network}
    → Reach rx_packet buffer_rx s
    → Holds (λ out. Reach rx_packet buffer_rx (read_by s out)) (thread s.receiver s.gateway bs)
unfolding thread
Reach-thread [] r = r
Reach-thread {rx_packet} {buffer_rx} (b ∷ bs) {s} r =
    after_byte (λ out. Reach rx_packet buffer_rx (read_by s out))
      (handle s.gateway (receive s.receiver b).1) (λ g. thread (receive s.receiver b).0 g bs)
      (λ g e. Reach-thread bs (next r (byte b e)))

pub one_packet :
    (r : Receiver) (g g' : Gateway) (bs : Bytes) (p : Packet)
    → (run r bs).1 ≡ p ∷ []
    → route g p ≡ ok g'
    → thread r g bs ≡ ok ((run r bs).0, g')
unfolding route_all
one_packet r g g' bs p cut routed = thread-route_all r g bs ∙ rw (cut, routed) refl

-- Where all four threads run, they can relay: from the program's start, for any write of the peer on
-- connection 0 of 2 to 87 bytes that are neither a command nor a ping, they can reach a state in which
-- the write is acknowledged, its value is the one message that the pipe has forwarded, and it has
-- been written to the UART as a notification and as an attribute write; `UartCmdRxThread` and
-- `Forward_MSG_Queue_Thread` have written nothing else.
pub Reach-relayed :
    (rx_packet buffer_rx buff forward_data_buff buffer : Memory) (status : ℕ → ℕ)
    (state signature kind a b : ℕ) (rest : Bytes)
    → length rest ≤ 85
    → (a == 0x30 && b == 0x31) ≡ false
    → (a == 0x50 && b == 0x42) ≡ false
    → (let value = a ∷ b ∷ rest in
        (s : Network) × Reach rx_packet buffer_rx s
        × (s.forwarded ≡ (Queue.peer_device, forwarded 0x01 value) ∷ [])
        × (s.gateway.written ≡ ack_bytes 0x00 ∷ [])
        × (s.sender.written ≡ notification_of value ∷ write_of value ∷ []))
Reach-relayed rx_packet buffer_rx buff forward_data_buff buffer status state signature kind a b rest
      fits plain no_ping =
    let value = a ∷ b ∷ rest in
    let bytes = peer_write state signature kind value in
    let s0 = begin rx_packet buffer_rx in
    let (p, g', cut, routed, told, acked, piped, served) =
      peer_write-relayed rx_packet buff forward_data_buff buffer s0.gateway status s0.sender state
        signature kind a b rest fits plain no_ping in
    let read = one_packet s0.receiver s0.gateway g' bytes p cut routed in
    let r1 =
      Holds-ok (λ out. Reach rx_packet buffer_rx (read_by s0 out)) _ read
        (Reach-thread bytes here) in
    let arrived : In (Queue.pipe_0, bytes) g'.sent = rw told (first refl) in
    let r2 = next r1 (pipe buff forward_data_buff arrived piped) in
    let same : length (forwarded 0x01 value) ≡ length value + 3 = omega arith in
    let none_counted : g'.slave_count ≡ 0 = (Reach-unconnected r1).1 in
    let called =
      ap₂
        (λ count size.
          forward_msg status count (memcpy buffer (forwarded 0x01 value)) size [] s0.sender)
        none_counted same in
    let step =
      forward buffer status [] {bytes = forwarded 0x01 value} {rest = []}
        {t = wrote (write_of value) (wrote (notification_of value) s0.sender)} (first refl)
        (called ∙ served) in
    (_, next r2 step, refl, acked, refl)
