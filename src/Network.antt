-- ===== src/Network.antt =====
-- The threads of BLE_Scanner/src/UartCmdRxThread.c and CentralModeThread.c together, in any order:
-- each step is a turn of one thread's loop. Of the message queues only this is taken for granted,
-- that `msgrcv` yields a message that was sent on its queue: it may be any, and more than once, so that
-- a turn on a message that a failed `msgrcv` has left in the buffer is among the steps.
-- What the system or another thread leaves open stands free in a step: what the controller sends,
-- what the arrays of a thread hold before a message is copied into them, and the status of a
-- connection while a message is forwarded.
pub mod Safety
pub mod Relayed
pub mod Linked
pub mod Queues
pub mod Bounded
pub mod Running
use ble_parking_gate_way.Prelude.{
  ℕ, ◌≡◌, List, [], ◌∷◌, ◌++◌, Option, none, some, Bytes, Memory, memcpy, length, ok, In,
}
use ble_parking_gate_way.Drivers.{Queue, Message}
use ble_parking_gate_way.Connections.Count.{Devices}
use ble_parking_gate_way.Receiver.{Receiver, receive}
use ble_parking_gate_way.Receiver.Frames.{ready}
use ble_parking_gate_way.Router.{Gateway}
use ble_parking_gate_way.Uart.{handle}
use ble_parking_gate_way.Central.State.{Central, Inputs}
use ble_parking_gate_way.Central.Loop
use ble_parking_gate_way.Pipe.{pipe_0000}
use ble_parking_gate_way.Forward.{Sender, Replies, finished, forward_msg}

-- The state of the four threads. `gateway.sent` holds what `UartCmdRxThread` has sent, and
-- `forwarded` what `pipe_0000_Thread` has.
pub record Network : Type 0 where
  pub receiver : Receiver
  pub gateway : Gateway
  pub central : Central
  pub forwarded : List Message
  pub sender : Sender

-- What `msgrcv` on a queue may yield: nothing, or a message that was sent on it.
pub data Receivable (queue : Queue) (sent : List Message) : Option Bytes → Type 0 where
  failed : Receivable queue sent none
  message : {bytes : Bytes} → In (queue, bytes) sent → Receivable queue sent (some bytes)

pub data Step (s : Network) : Network → Type 0 where
  -- `UartCmdRxThread` reads a byte.
  byte :
      (b : ℕ) {g : Gateway}
      → handle s.gateway (receive s.receiver b).1 ≡ ok g
      → Step s (record s { receiver = (receive s.receiver b).0; gateway = g })
  -- `CentralModeThread` takes a turn.
  central_turn :
      (i : Inputs)
      → Receivable Queue.command_resp s.gateway.sent i.message
      → i.devices ≡ s.gateway.devices
      → Step s (record s { central = Loop.step s.central i })
  -- `pipe_0000_Thread` passes a packet on.
  pipe :
      (buff forward_data_buff : Memory) {bytes : Bytes} {sent : Message}
      → In (Queue.pipe_0, bytes) s.gateway.sent
      → pipe_0000 (memcpy buff bytes) forward_data_buff ≡ ok sent
      → Step s (record s { forwarded = s.forwarded ++ sent ∷ [] })
  -- `Forward_MSG_Queue_Thread` serves a message.
  forward :
      (buffer : Memory) (status : ℕ → ℕ) (replies : Replies) {bytes : Bytes} {rest : Replies}
      {t : Sender}
      → In (Queue.peer_device, bytes) s.forwarded
      → forward_msg status s.gateway.slave_count
          (memcpy buffer bytes)
          (length bytes)
          replies
          s.sender
        ≡ finished rest t
      → Step s (record s { sender = t })

-- The program's start: the globals are zero, and the arrays of the threads hold anything.
abbrev pub zeroed : Devices
zeroed i = record {
  mac = λ _. 0;
  conn_handle = 0;
  handle_id = 0;
  status = 0;
  central_id = λ _. 0;
  device_state = 0;
}

abbrev pub begin : Memory → Memory → Network
begin rx_packet buffer_rx = record {
  receiver = ready rx_packet;
  gateway = record { devices = zeroed; slave_count = 0; sent = []; written = [] };
  central = Loop.start;
  forwarded = [];
  sender = record { buffer_rx = buffer_rx; size_rx = 0; written = [] };
}

pub data Reach (rx_packet buffer_rx : Memory) : Network → Type 0 where
  here : Reach rx_packet buffer_rx (begin rx_packet buffer_rx)
  next : {s t : Network} → Reach rx_packet buffer_rx s → Step s t → Reach rx_packet buffer_rx t
