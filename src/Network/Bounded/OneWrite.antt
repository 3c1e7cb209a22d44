-- ===== src/Network/Bounded/OneWrite.antt =====
-- A round of the threads of BLE_Scanner/src over queues of limited size, that carries what a peer writes
-- to the UART.
use ble_parking_gate_way.Prelude.{
  ℕ, ◌+◌, ◌≤◌, ◌≡◌, refl, ◌∙◌, ap, sym, false, ◌&&◌, ◌==◌, List, [], ◌∷◌, ◌++◌, append_assoc,
  append-nil, inl, Bytes, Memory, memcpy, length, drop, In, arith, ok,
}
use mathlib.Core.Path.{ap₂}
use ble_parking_gate_way.Drivers.{Queue}
use ble_parking_gate_way.Receiver.Frames.{ready}
use ble_parking_gate_way.Router.Links.{ack_bytes}
use ble_parking_gate_way.Uart.{thread}
use ble_parking_gate_way.Pipe.{pipe_0000}
use ble_parking_gate_way.Pipe.Relay.{forwarded}
use ble_parking_gate_way.Forward.{Sender, finished, wrote, forward_msg}
use ble_parking_gate_way.Forward.Broadcast.{notification_of, write_of}
use ble_parking_gate_way.Relay.{peer_write, peer_write-relayed}
use ble_parking_gate_way.Start.{
  Thread, uart_cmd_rx_thread, pipe_0000_thread, forward_msg_queue_thread,
}
use ble_parking_gate_way.Network.Relayed.{one_packet}
use ble_parking_gate_way.Network.Safety.{Reach-unconnected}
use ble_parking_gate_way.Network.Queues
use ble_parking_gate_way.Network.Queues.{Queued, oldest, pipe, forward}
use ble_parking_gate_way.Network.Queues.Refines.{Reach-simulated}
use ble_parking_gate_way.Network.Bounded.{Bounded, turn, Later, here, next}
use ble_parking_gate_way.Network.Bounded.Limits.{IsLimited, Later-Reach, Later-append}
use ble_parking_gate_way.Network.Bounded.Room.{reads_all}
use ble_parking_gate_way.Network.Bounded.Waiting.{
  forwarded-HasRoom, write-Fits, pipe_waits, no_peer_waits,
}
use ble_parking_gate_way.Network.Bounded.Writes.{idle_again}

-- A write of the peer on connection 0.
pub record Write : Type 0 where
  pub state : ℕ
  pub signature : ℕ
  pub kind : ℕ
  pub first : ℕ
  pub second : ℕ
  pub rest : Bytes

abbrev pub value_of : Write → Bytes
value_of w = w.first ∷ w.second ∷ w.rest

abbrev pub bytes_of : Write → Bytes
bytes_of w = peer_write w.state w.signature w.kind (value_of w)

-- The value has 2 to 87 bytes, and is neither a command nor a ping.
abbrev pub IsRelayed : Write → Type 0
IsRelayed w =
    (length w.rest ≤ 85)
    × ((w.first == 0x30 && w.second == 0x31) ≡ false)
    × ((w.first == 0x50 && w.second == 0x42) ≡ false)

-- What a write makes `Forward_MSG_Queue_Thread` write.
abbrev pub relayed_by : Write → List Bytes
relayed_by w = notification_of (value_of w) ∷ write_of (value_of w) ∷ []

-- The threads are between two packets, and nothing waits to be relayed.
pub record AtRest (s : Queued) : Type 0 where
  pub between : (m : Memory) × (s.net.receiver ≡ ready m)
  pub none_piped : s.pending Queue.pipe_0 ≡ []
  pub none_forwarded : s.pending Queue.peer_device ≡ []

-- What has become of a state: bytes are left, and packets were written.
pub record Relays (s t : Bounded) (more : Bytes) (acks relayed : List Bytes) : Type 0 where
  pub left : t.wire ≡ more
  pub at_rest : AtRest t.queued
  pub acked : t.queued.net.gateway.written ≡ s.queued.net.gateway.written ++ acks
  pub written : t.queued.net.sender.written ≡ s.queued.net.sender.written ++ relayed

-- What forwarding a value does.
abbrev Serves : Memory → Sender → Bytes → Type 0
Serves buffer sender value =
    forward_msg (λ idz. 0) 0 (memcpy buffer (forwarded 0x01 value)) (length value + 3) [] sender
    ≡ finished [] (wrote (write_of value) (wrote (notification_of value) sender))

-- Where the threads are at rest, a write is relayed, and they are at rest again.
module _ {limit : ℕ} {threads : List Thread} {rx_packet buffer_rx : Memory} (room : 1 ≤ limit)
    (uart : In uart_cmd_rx_thread threads) (pipes : In pipe_0000_thread threads)
    (forwards : In forward_msg_queue_thread threads) where
  -- The last two turns: the pipe passes the write on, and it is served.
  passed_on :
      (value bytes : Bytes) {s : Bounded}
      → length value ≤ 87
      → Queues.Reach rx_packet buffer_rx s.queued
      → s.queued.pending Queue.pipe_0 ≡ bytes ∷ []
      → s.queued.pending Queue.peer_device ≡ []
      → pipe_0000 (memcpy rx_packet bytes) rx_packet ≡ ok (Queue.peer_device, forwarded 0x01 value)
      → Serves rx_packet s.queued.net.sender value
      → (m : Memory) × (s.queued.net.receiver ≡ ready m)
      → (t : Bounded) × Later limit threads s t
        × Relays s t s.wire [] (notification_of value ∷ write_of value ∷ [])
  passed_on value bytes {s} small r arrived idle piped served between =
      let net = s.queued.net in
      let pending = s.queued.pending in
      let waits : pending Queue.peer_device ++ forwarded 0x01 value ∷ []
          ≡ forwarded 0x01 value ∷ [] =
        ap (λ ms. ms ++ forwarded 0x01 value ∷ []) idle in
      let size : length (forwarded 0x01 value) ≡ length value + 3 = omega (arith, small) in
      let called =
        ap₂
          (λ count size.
            forward_msg (λ idz. 0) count (memcpy rx_packet (forwarded 0x01 value)) size []
              net.sender)
          ((Reach-unconnected (Reach-simulated r)).1) size in
      let step =
        forward rx_packet (λ idz. 0) [] 0 {got = 1} {bytes = forwarded 0x01 value} {left = []}
          {t = wrote (write_of value) (wrote (notification_of value) net.sender)}
          (oldest refl waits) (called ∙ served) (omega arith) in
      let l = next here (
        turn (pipe rx_packet rx_packet {got = 1} (oldest refl arrived) piped) pipes
          (forwarded-HasRoom limit pending (forwarded 0x01 value) idle room) refl) in
      (
        _,
        next l (turn step forwards (λ q. inl refl) refl),
        record {
          left = refl;
          at_rest = record {
            between = between;
            none_piped = append-nil (drop 1 (pending Queue.pipe_0)) ∙ ap (drop 1) arrived;
            none_forwarded = ap (drop 1) waits;
          };
          acked = sym (append-nil net.gateway.written);
          written = append_assoc net.sender.written _ _;
        },
      )

  pub one_relayed :
      (w : Write) (more : Bytes) {s : Bounded}
      → IsRelayed w
      → Queues.Reach rx_packet buffer_rx s.queued
      → IsLimited limit s.queued
      → AtRest s.queued
      → s.wire ≡ bytes_of w ++ more
      → (t : Bounded) × Later limit threads s t
        × Relays s t more (ack_bytes 0x00 ∷ []) (relayed_by w)
  one_relayed w more {s} (fits, plain, no_ping) r small rest same =
      let net = s.queued.net in
      let (m, ready_now) = rest.between in
      let (p, g', cut, routed, told, acked, piped, served) =
        peer_write-relayed m rx_packet rx_packet rx_packet net.gateway (λ idz. 0) net.sender w.state
          w.signature w.kind w.first w.second w.rest fits plain no_ping in
      let read =
        ap (λ receiver. thread receiver net.gateway (bytes_of w)) ready_now
        ∙ one_packet (ready m) net.gateway g' (bytes_of w) p cut routed
        ∙ ap (λ receiver. ok (receiver, g'))
            (idle_again w.state w.signature w.kind w.first w.second w.rest fits plain no_ping m) in
      let (pending, l) =
        reads_all {limit = limit} {threads = threads} (bytes_of w) more r uart same read
          (write-Fits g' (bytes_of w) r small rest.none_piped room told) in
      let r1 = Later-Reach l r in
      let (t, k, relays) =
        passed_on (value_of w) (bytes_of w) (omega (arith, fits)) r1
          (pipe_waits (bytes_of w) r rest.none_piped told r1)
          (no_peer_waits r rest.none_forwarded r1) piped served (_, refl) in
      (
        t,
        Later-append l k,
        record {
          left = relays.left;
          at_rest = relays.at_rest;
          acked = relays.acked ∙ append-nil g'.written ∙ acked;
          written = relays.written;
        },
      )
