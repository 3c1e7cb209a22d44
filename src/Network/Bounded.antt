-- ===== src/Network/Bounded.antt =====
-- The threads of BLE_Scanner/src over queues of limited size: `msgsnd` in `sys_mq_send` of
-- BLE_Scanner/Drivers/Msg_Def.c waits while its queue is full, since its flag is 0, and the thread that
-- calls it with it. The limit is the system's; it counts messages, since all have the same size. The
-- bytes that the controller sends are a list, and only the threads that were started take turns. Each step
-- is a turn that has ended, so that a turn that waits for room is no step: the byte that it has read, and
-- what it has changed, count from its end on. Running tells the reading of a byte from the end of its
-- turn.

pub mod Limits
pub mod Unread
pub mod Stream
pub mod Room
pub mod Writes
pub mod Linked
pub mod Waiting
pub mod OneWrite
pub mod Relayed
pub mod Finished
use ble_parking_gate_way.Prelude.{ℕ, ◌≤◌, ◌≡◌, ◌⊎◌, List, [], ◌∷◌, ◌++◌, Bytes, Memory, length, In}
use ble_parking_gate_way.Drivers.{Queue, Message}
use ble_parking_gate_way.Uart.Log.{messages_on}
use ble_parking_gate_way.Start.{
  Thread, uart_cmd_rx_thread, central_mode_thread, pipe_0000_thread, forward_msg_queue_thread,
}
use ble_parking_gate_way.Network.Queues
use ble_parking_gate_way.Network.Queues.{
  Queued, deliver, added, byte, central_alone, central_takes, pipe, forward, fresh,
}

-- The threads and the queues, and the controller's bytes whose turn has not ended.
pub record Bounded : Type 0 where
  pub queued : Queued
  pub wire : Bytes

-- The thread that takes a step, the bytes whose turn it is, and the messages that it sends.
abbrev pub runs : {s t : Queued} → Queues.Step s t → Thread
runs (byte b e) = uart_cmd_rx_thread
runs (central_alone i silent d) = central_mode_thread
runs (central_takes i asked waits got d) = central_mode_thread
runs (pipe buff forward_data_buff waits e) = pipe_0000_thread
runs (forward buffer status replies n waits e few) = forward_msg_queue_thread

abbrev pub reads : {s t : Queued} → Queues.Step s t → Bytes
reads (byte b e) = b ∷ []
reads _ = []

abbrev pub sends : {s t : Queued} → Queues.Step s t → List Message
sends {s} (byte b {g} e) = added s.net.gateway g
sends (pipe buff forward_data_buff {sent} waits e) = sent ∷ []
sends _ = []

-- Each queue that gets a message has room for it.
abbrev pub HasRoom : ℕ → (Queue → List Bytes) → List Message → Type 0
HasRoom limit pending ms =
    (q : Queue) → (messages_on q ms ≡ []) ⊎ (length (deliver pending ms q) ≤ limit)

abbrev pub begin : Memory → Memory → Bytes → Bounded
begin rx_packet buffer_rx wire = record { queued = fresh rx_packet buffer_rx; wire = wire }

module _ (limit : ℕ) (threads : List Thread) where
  pub data Step (s : Bounded) : Bounded → Type 0 where
    turn :
        {t : Queued} {wire : Bytes} (step : Queues.Step s.queued t)
        → In (runs step) threads
        → HasRoom limit s.queued.pending (sends step)
        → s.wire ≡ reads step ++ wire
        → Step s (record { queued = t; wire = wire })

  -- What comes after a state.
  pub data Later (s : Bounded) : Bounded → Type 0 where
    here : Later s s
    next : {t u : Bounded} → Later s t → Step t u → Later s u
