-- ===== src/Forward.antt =====
-- `Forward_MSG_Queue_Thread` of BLE_Scanner/src/UartCmdRxThread.c: it writes each forwarded message
-- to the peers, and tries again while the controller is busy. The part under `#if 0` is not
-- modelled. The pauses have no part in the model, but for the turns that they separate: what
-- `sys_mq_recv` yields after each attempt is a list, and the thread blocks where the list ends.
pub mod Retry
pub mod Broadcast
pub mod Safe
pub mod Stale
use ble_parking_gate_way.Prelude.{
  ℕ, zero, suc, ◌+◌, Bool, true, false, not, ◌&&◌, List, [], ◌∷◌, ◌++◌, Option, Bytes, Memory, u8,
  ltb, ◌==◌, if◌then◌else◌, Result, ok, fault, Fault,
}
use ble_parking_gate_way.Drivers.{Received, sys_mq_recv}
use ble_parking_gate_way.Commands.{gatt_write_value, notify_data}
use ble_parking_gate_way.Connections.Count.{max_num_peripherals}

-- `RETRY_COUNT`
abbrev pub retry_count : ℕ
retry_count = 4

-- What the thread has of its own: `buffer_Rx`, `size_Rx`, and the packets written to the UART.
pub record Sender : Type 0 where
  pub buffer_rx : Memory
  pub size_rx : ℕ
  pub written : List Bytes

abbrev pub Replies : Type 0
Replies = List (Option Bytes)

-- How a part of the thread ends, with the replies that are still to come.
pub data Outcome : Type 0 where
  finished : Replies → Sender → Outcome
  blocked : Sender → Outcome
  faulted : Fault → Outcome

-- The three loops are alike but for a busy controller (status 0x16): for cloud data the line that
-- counts the attempt is commented out.
pub data Loop : Type 0 where
  cloud counted : Loop

abbrev pub after_busy : Loop → ℕ → ℕ
after_busy cloud retry_needed = retry_needed
after_busy counted retry_needed = u8 (retry_needed + 1)

-- `retry_needed` after the tests on `buffer_Rx[5]`.
unfoldable pub after_status : Loop → ℕ → ℕ → ℕ
after_status loop status retry_needed =
    if status == 0x00
    then retry_count
    else if status == 0x16
    then after_busy loop retry_needed
    else if status == 0x14
    then retry_count
    else if status == 0x04
    then 0
    else retry_needed

abbrev pub wrote : Bytes → Sender → Sender
wrote pac s = record s { written = s.written ++ pac ∷ [] }

-- `do { Notify_data(...); if (sys_mq_recv(...) == 0) ... } while (retry_needed < retry_count);`
unfoldable pub retry : Loop → Bytes → Replies → ℕ → Sender → Outcome
retry loop pac [] retry_needed s = blocked (wrote pac s)
retry loop pac (reply ∷ replies) retry_needed s =
    let r = sys_mq_recv reply s.buffer_rx s.size_rx in
    let s' = record (wrote pac s) { buffer_rx = r.buf; size_rx = r.size } in
    let needed = if r.status == 0 then after_status loop (r.buf 5) retry_needed else retry_needed in
    let again = retry loop pac replies needed s' in
    if ltb needed retry_count then again else finished replies s'

-- The loop for one connection; the packet is the same at each attempt.
unfoldable pub send_until : Loop → Result Bytes → Replies → Sender → Outcome
send_until loop (fault e) replies s = faulted e
send_until loop (ok pac) replies s = retry loop pac replies 0 s

abbrev pub and_then : Outcome → (Replies → Sender → Outcome) → Outcome
and_then (finished replies s) k = k replies s
and_then (blocked s) k = blocked s
and_then (faulted e) k = faulted e

-- `for (; rounds; idz++) if (<the connection is to be served>) ...`
unfoldable pub broadcast : Loop → (ℕ → Bool) → Memory → ℕ → ℕ → ℕ → Replies → Sender → Outcome
broadcast loop serves buffer size zero idz replies s = finished replies s
broadcast loop serves buffer size (suc rounds) idz replies s =
    let rest = λ (replies : Replies) (s : Sender).
      broadcast loop serves buffer size rounds (idz + 1) replies s in
    elim (serves idz) [
      | true ↦ and_then (send_until loop (notify_data buffer size idz) replies s) rest
      | false ↦ rest replies s
    ]

-- One turn of the thread's loop, for a message of `size` bytes in `buffer`. `status` is
-- `Conn_Device_List[idz].status` as the test for `idz` reads it.
unfoldable pub forward_msg : (ℕ → ℕ) → ℕ → Memory → ℕ → Replies → Sender → Outcome
forward_msg status slave_count buffer size replies s =
    let conn_handle_id = buffer 0 in
    let direction = buffer 1 in
    if conn_handle_id == 0xFF
    then (if ltb 0 slave_count
        then broadcast cloud (λ idz. status idz == 1) buffer size max_num_peripherals 0 replies s
        else finished replies s)
    else if conn_handle_id == 0xEE
    then send_until counted (notify_data buffer size (buffer 1)) replies s
    else if direction == 0x01
    then elim (notify_data buffer size 0) [
      | fault e ↦ faulted e
      | ok note ↦ elim (gatt_write_value buffer size 0) [
        | fault e ↦ faulted e
        | ok value ↦
            let s' = wrote value (wrote note s) in
            if ltb 0 slave_count
            then broadcast counted (λ idz. status idz == 1 && not (idz == conn_handle_id)) buffer
                size max_num_peripherals 0 replies s'
            else finished replies s'
      ]
    ]
    else finished replies s
