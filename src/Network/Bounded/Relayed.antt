-- ===== src/Network/Bounded/Relayed.antt =====
-- A run of the threads of BLE_Scanner/src over queues of limited size, that carries what a peer
-- writes to the UART.
use ble_parking_gate_way.Prelude.{
  ℕ, ◌≤◌, ◌≡◌, refl, ◌∙◌, ap, sym, List, [], ◌∷◌, ◌++◌, append_assoc, append-nil, Bytes, Memory,
  length, replicate, In, arith,
}
use ble_parking_gate_way.Drivers.{Queue}
use ble_parking_gate_way.Receiver.Frames.{All}
use ble_parking_gate_way.Router.Links.{ack_bytes}
use ble_parking_gate_way.Start.{
  Thread, uart_cmd_rx_thread, pipe_0000_thread, forward_msg_queue_thread,
}
use ble_parking_gate_way.Network.Queues
use ble_parking_gate_way.Network.Bounded.{Bounded, Later, here, begin}
use ble_parking_gate_way.Network.Bounded.Limits.{
  IsLimited, Later-Reach, Later-IsLimited, Later-append,
}
use ble_parking_gate_way.Network.Bounded.OneWrite.{
  Write, bytes_of, IsRelayed, relayed_by, AtRest, Relays, one_relayed,
}

-- The bytes of writes, and what all of them make it write.
abbrev pub stream : List Write → Bytes
stream [] = []
stream (w ∷ ws) = bytes_of w ++ stream ws

abbrev pub all_relayed : List Write → List Bytes
all_relayed [] = []
all_relayed (w ∷ ws) = relayed_by w ++ all_relayed ws

module _ {limit : ℕ} {threads : List Thread} {rx_packet buffer_rx : Memory} (room : 1 ≤ limit)
    (uart : In uart_cmd_rx_thread threads) (pipes : In pipe_0000_thread threads)
    (forwards : In forward_msg_queue_thread threads) where
  each_relayed :
      (ws : List Write) (more : Bytes) {s : Bounded}
      → All IsRelayed ws
      → Queues.Reach rx_packet buffer_rx s.queued
      → IsLimited limit s.queued
      → AtRest s.queued
      → s.wire ≡ stream ws ++ more
      → (t : Bounded) × Later limit threads s t
        × Relays s t more (replicate (length ws) (ack_bytes 0x00)) (all_relayed ws)
  each_relayed [] more {s} others r small rest same = (
    s,
    here,
    record {
      left = same;
      at_rest = rest;
      acked = sym (append-nil s.queued.net.gateway.written);
      written = sym (append-nil s.queued.net.sender.written);
    },
  )
  each_relayed (w ∷ ws) more {s} (one, others) r small rest same =
      let (t, l, first_of) =
        one_relayed room uart pipes forwards w (stream ws ++ more) one r small rest
          (same ∙ append_assoc (bytes_of w) (stream ws) more) in
      let (u, k, others_of) =
        each_relayed ws more others (Later-Reach l r) (Later-IsLimited l small) first_of.at_rest
          first_of.left in
      (
        u,
        Later-append l k,
        record {
          left = others_of.left;
          at_rest = others_of.at_rest;
          acked =
              others_of.acked
              ∙ ap (λ ms. ms ++ replicate (length ws) (ack_bytes 0x00)) first_of.acked
              ∙ append_assoc s.queued.net.gateway.written _ _;
          written =
              others_of.written
              ∙ ap (λ ms. ms ++ all_relayed ws) first_of.written
              ∙ append_assoc s.queued.net.sender.written _ _;
        },
      )

-- Any number of writes of the peer on connection 0 to the attribute handle 0x0003 is relayed, where each
-- turn is one step.
pub relayed_limited :
    (limit : ℕ) (threads : List Thread) (rx_packet buffer_rx : Memory) (ws : List Write)
    (more : Bytes)
    → 1 ≤ limit
    → In uart_cmd_rx_thread threads
    → In pipe_0000_thread threads
    → In forward_msg_queue_thread threads
    → All IsRelayed ws
    → (t : Bounded) × Later limit threads (begin rx_packet buffer_rx (stream ws ++ more)) t
      × (t.wire ≡ more)
      × (t.queued.net.gateway.written ≡ replicate (length ws) (ack_bytes 0x00))
      × (t.queued.net.sender.written ≡ all_relayed ws)
      × (t.queued.pending Queue.pipe_0 ≡ [])
      × (t.queued.pending Queue.peer_device ≡ [])
relayed_limited limit threads rx_packet buffer_rx ws more room uart pipes forwards relayed =
    let (t, l, relays) =
      each_relayed room uart pipes forwards ws more relayed Queues.Reach.here (λ q. omega arith)
        (record { between = (rx_packet, refl); none_piped = refl; none_forwarded = refl }) refl in
    (
      t, l, relays.left, relays.acked, relays.written, relays.at_rest.none_piped,
      relays.at_rest.none_forwarded,
    )
