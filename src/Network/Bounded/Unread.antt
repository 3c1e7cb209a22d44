-- ===== src/Network/Bounded/Unread.antt =====
-- The program as `main` of BLE_Scanner/src/VVDNBLEMeshStack.c starts it, over queues of limited size: it
-- stops reading the UART.
use ble_parking_gate_way.Prelude.{
  ℕ, ◌≤◌, ◌≡◌, inl, refl, Bool, true, false, [], Bytes, Memory, length, arith,
}
use ble_parking_gate_way.Drivers.{Queue}
use ble_parking_gate_way.Uart.Kept.{is_uart_queue}
use ble_parking_gate_way.Uart.Log.{messages_on}
use ble_parking_gate_way.Central.State.{Central}
use ble_parking_gate_way.Start.{
  Thread, uart_cmd_rx_thread, central_mode_thread, pipe_0000_thread, forward_msg_queue_thread, main,
  is_started, main-OnlyStarted,
}
use ble_parking_gate_way.Network.Queues
use ble_parking_gate_way.Network.Queues.{
  Queued, byte, central_alone, central_takes, pipe, forward, fresh,
}
use ble_parking_gate_way.Network.Bounded.{Bounded, Later, begin}
use ble_parking_gate_way.Network.Bounded.Limits.{takes, IsAbandoned, sent_limited}

-- The queues whose messages no thread takes that `main` starts.
abbrev pub is_unread : Queue → Bool
is_unread Queue.pipe_0 = true
is_unread Queue.write_rsp = true
is_unread Queue.ping_pkt = true
is_unread _ = false

untaken :
    (thread : Thread) (q : Queue)
    → is_started thread ≡ true
    → is_unread q ≡ true
    → takes thread q ≡ false
untaken uart_cmd_rx_thread q h k = refl
untaken central_mode_thread Queue.pipe_0 h k = refl
untaken central_mode_thread Queue.write_rsp h k = refl
untaken central_mode_thread Queue.ping_pkt h k = refl
untaken central_mode_thread _ h k = absurd (cc)
untaken pipe_0000_thread q h k = absurd (cc)
untaken forward_msg_queue_thread q h k = absurd (cc)

unread-is_uart_queue : (q : Queue) → is_unread q ≡ true → is_uart_queue q ≡ true
unread-is_uart_queue Queue.pipe_0 h = refl
unread-is_uart_queue Queue.write_rsp h = refl
unread-is_uart_queue Queue.ping_pkt h = refl
unread-is_uart_queue _ h = absurd (cc)

pub unread-IsAbandoned :
    (opened : ℕ) (created : Thread → Bool) (q : Queue) (c : Central)
    → is_unread q ≡ true
    → IsAbandoned (main opened created).threads q c
unread-IsAbandoned opened created q c unread =
    inl (λ thread mine. untaken thread q (main-OnlyStarted opened created thread mine) unread)

module _ (limit : ℕ) (opened : ℕ) (created : Thread → Bool) {rx_packet buffer_rx : Memory} where
  -- Whichever threads `main` manages to start, whatever the controller sends and in whatever order they
  -- take their turns: on each of the three queues that none of them reads, at most as many messages
  -- are ever sent as a queue holds.
  pub started_limited :
      {wire : Bytes} {t : Bounded} (q : Queue)
      → is_unread q ≡ true
      → Later limit (main opened created).threads (begin rx_packet buffer_rx wire) t
      → length (messages_on q t.queued.net.gateway.sent) ≤ limit
  started_limited q unread l =
      let bound =
        sent_limited q Queues.Reach.here (λ queue. omega arith) (unread-is_uart_queue q unread)
          (unread-IsAbandoned opened created q (begin rx_packet buffer_rx []).queued.net.central
            unread)
          l in
      omega (arith, bound)
