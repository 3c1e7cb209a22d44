-- ===== src/Tests/Limits.antt =====
-- Queues of limited size, at concrete inputs.
use ble_parking_gate_way.Prelude.{
  ◌≡◌, refl, List, [], ◌∷◌, ◌++◌, Bytes, In, first, replicate, arith, true, false,
}
use ble_parking_gate_way.Router.Links.{ack_bytes}
use ble_parking_gate_way.Start.{
  Started, uart_cmd_rx_thread, central_mode_thread, pipe_0000_thread, forward_msg_queue_thread,
  main,
}
use ble_parking_gate_way.Network.Bounded.Writes.{repeated, write}
use ble_parking_gate_way.Network.Bounded.OneWrite.{Write}
use ble_parking_gate_way.Network.Running.{Running, begin}
use ble_parking_gate_way.Network.Running.Promises.{
  HasRead, HasUnread, stops_at_writes, reads_writes,
}
use ble_parking_gate_way.Tests.{zeros}

abbrev pub started : Started
started = main 3 (λ thread. true)

pub started-uart : In uart_cmd_rx_thread started.threads
unfolding main
started-uart = first refl

-- The write of the bytes "AB" by the peer.
abbrev a_write : Bytes
a_write = write 0 0 0 0x41 0x42 [] (omega arith) refl refl

abbrev Read : Bytes → Type 0
Read more =
    (t : Running) × HasRead 1 started (begin zeros zeros (repeated 1 a_write ++ more)) t more
    × (t.bounded.queued.net.gateway.written ≡ replicate 1 (ack_bytes 0x00))

pub both_started : started.sys_exit_flag ≡ false
unfolding main
both_started = refl

reads_writes_example : Read (0x55 ∷ [])
reads_writes_example =
    reads_writes 0 0 0 0x41 0x42 [] (omega arith) refl refl 1 3 (λ thread. true) zeros zeros
      (0x55 ∷ []) both_started started-uart

-- One write is read, and another is on the wire.
one_read : Read (a_write ++ 0x55 ∷ [])
one_read =
    reads_writes 0 0 0 0x41 0x42 [] (omega arith) refl refl 1 3 (λ thread. true) zeros zeros
      (a_write ++ 0x55 ∷ []) both_started started-uart

stops_at_writes_example : HasUnread one_read.0 (0x55 ∷ [])
stops_at_writes_example =
    stops_at_writes 0 0 0 0x41 0x42 [] (omega arith) refl refl 1 3 (λ thread. true) (0x55 ∷ [])
      one_read.1.0

-- All four threads, two writes, and a queue with room for one message.
abbrev all_threads : Started
all_threads = record {
  sys_exit_flag = false;
  threads =
      uart_cmd_rx_thread ∷ central_mode_thread ∷ pipe_0000_thread ∷ forward_msg_queue_thread ∷ [];
}

abbrev two_writes : List Write
two_writes =
    record { state = 0; signature = 0; kind = 0; first = 0x41; second = 0x42; rest = 0x43 ∷ [] }
    ∷ record { state = 0; signature = 0; kind = 0; first = 0x44; second = 0x45; rest = [] }
    ∷ []
