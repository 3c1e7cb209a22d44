-- ===== src/Network/Queues.antt =====
-- The threads of BLE_Scanner/src/UartCmdRxThread.c and CentralModeThread.c over queues that hold
-- messages: `msgsnd` puts a message behind the others, and `msgrcv` takes the first away. The queues
-- are empty at the start. `Forward_MSG_Queue_Thread` waits for statuses in the middle of its turn, while
-- others arrive: so the replies of a turn are any, and it takes at most as many statuses as it gets
-- replies.
pub mod Refines
pub mod Relayed
pub mod Turns
pub mod Connecting
pub mod Linked
use ble_parking_gate_way.Prelude.{
  ℕ, ◌+◌, ◌≤◌, ◌≡◌, refl, true, false, List, [], ◌∷◌, ◌++◌, Option, none, some, Bytes, Memory,
  memcpy, length, take, drop, ok, if◌then◌else◌,
}
use ble_parking_gate_way.Drivers.{Queue, is_same, Message}
use ble_parking_gate_way.Receiver.{receive}
use ble_parking_gate_way.Router.{Gateway}
use ble_parking_gate_way.Uart.{handle}
use ble_parking_gate_way.Uart.Log.{messages_on}
use ble_parking_gate_way.Central.State.{Inputs}
use ble_parking_gate_way.Central.Loop
use ble_parking_gate_way.Central.Asks.{asks}
use ble_parking_gate_way.Pipe.{pipe_0000}
use ble_parking_gate_way.Forward.{Sender, Replies, finished, forward_msg}
use ble_parking_gate_way.Network.{Network, begin}

-- The threads, what the queues hold, and what was taken from them, oldest first.
pub record Queued : Type 0 where
  pub net : Network
  pub pending : Queue → List Bytes
  pub taken : Queue → List Bytes

abbrev pub deliver : (Queue → List Bytes) → List Message → Queue → List Bytes
deliver pending ms q = pending q ++ messages_on q ms

-- The first `n` messages of a queue are taken.
abbrev pub take_from : Queue → ℕ → Queued → Queued
take_from queue n s = record s {
  pending = λ q. if is_same queue q then drop n (s.pending q) else s.pending q;
  taken = λ q. if is_same queue q then s.taken q ++ take n (s.pending q) else s.taken q;
}

-- What a packet has added to the messages.
abbrev pub added : Gateway → Gateway → List Message
added g g' = drop (length g.sent) g'.sent

-- How a thread that does not look at the result of `sys_mq_recv` comes by the message in its buffer:
-- `msgrcv` takes the oldest message of the queue, or it fails, and the buffer and the size are as the
-- message before has left them. `n` is the number of messages taken. A failure before the first message
-- leaves the buffer unassigned, and is no step.
pub data Received (queue : Queue) (s : Queued) (bytes : Bytes) (n : ℕ) : Type 0 where
  oldest : {rest : List Bytes} → n ≡ 1 → s.pending queue ≡ bytes ∷ rest → Received queue s bytes n
  stale :
      (before : List Bytes)
      → n ≡ 0
      → s.taken queue ≡ before ++ bytes ∷ []
      → Received queue s bytes n

pub data Step (s : Queued) : Queued → Type 0 where
  -- `UartCmdRxThread` reads a byte.
  byte :
      (b : ℕ) {g : Gateway}
      → handle s.net.gateway (receive s.net.receiver b).1 ≡ ok g
      → Step s (record s {
        net = record s.net { receiver = (receive s.net.receiver b).0; gateway = g };
        pending = deliver s.pending (added s.net.gateway g);
      })
  -- `CentralModeThread` takes a turn in which `msgrcv` is not called, or fails.
  central_alone :
      (i : Inputs)
      → i.message ≡ none
      → i.devices ≡ s.net.gateway.devices
      → Step s (record s { net = record s.net { central = Loop.step s.net.central i } })
  -- It takes a turn in which `msgrcv` yields a message.
  central_takes :
      (i : Inputs) {bytes : Bytes} {rest : List Bytes}
      → asks s.net.central i ≡ true
      → s.pending Queue.command_resp ≡ bytes ∷ rest
      → i.message ≡ some bytes
      → i.devices ≡ s.net.gateway.devices
      → Step s (record (take_from Queue.command_resp 1 s) {
        net = record s.net { central = Loop.step s.net.central i };
      })
  -- `pipe_0000_Thread` passes on the packet in its buffer.
  pipe :
      (buff forward_data_buff : Memory) {got : ℕ} {bytes : Bytes} {sent : Message}
      → Received Queue.pipe_0 s bytes got
      → pipe_0000 (memcpy buff bytes) forward_data_buff ≡ ok sent
      → Step s (record (take_from Queue.pipe_0 got s) {
        net = record s.net { forwarded = s.net.forwarded ++ sent ∷ [] };
        pending = deliver (take_from Queue.pipe_0 got s).pending (sent ∷ []);
      })
  -- `Forward_MSG_Queue_Thread` serves the message in its buffer, and takes `n` statuses.
  forward :
      (buffer : Memory) (status : ℕ → ℕ) (replies : Replies) (n : ℕ) {got : ℕ} {bytes : Bytes}
      {left : Replies} {t : Sender}
      → Received Queue.peer_device s bytes got
      → forward_msg status s.net.gateway.slave_count
          (memcpy buffer bytes)
          (length bytes)
          replies
          s.net.sender
        ≡ finished left t
      → n + length left ≤ length replies
      → Step s (record (take_from Queue.write_rsp n (take_from Queue.peer_device got s)) {
        net = record s.net { sender = t };
      })

abbrev pub fresh : Memory → Memory → Queued
fresh rx_packet buffer_rx = record {
  net = begin rx_packet buffer_rx;
  pending = λ q. [];
  taken = λ q. [];
}

pub data Reach (rx_packet buffer_rx : Memory) : Queued → Type 0 where
  here : Reach rx_packet buffer_rx (fresh rx_packet buffer_rx)
  next : {s t : Queued} → Reach rx_packet buffer_rx s → Step s t → Reach rx_packet buffer_rx t
