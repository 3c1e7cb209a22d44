-- ===== src/Pipe.antt =====
-- `pipe_0000_Thread` of BLE_Scanner/src/UartCmdRxThread.c: it takes the packets of connection 0
-- apart and forwards what they carry. Its two arrays have 100 bytes. `data_length` is an `int` and
-- may be negative: the loop then makes no round, and the size that is sent wraps to 16 bits.
pub mod Relay
use ble_parking_gate_way.Prelude.{
  ℕ, ◌+◌, ◌-◌, List, [], ◌∷◌, some, Memory, memcpy, cells, u8, u16, ltb, ◌==◌, if◌then◌else◌,
  Result, fault, Fault,
}
use ble_parking_gate_way.Hci.{make16ofxy}
use ble_parking_gate_way.Hci.Event
use ble_parking_gate_way.Drivers.{Queue, Message, sys_mq_send}

-- One turn of the loop, once `buff` holds the packet: a read behind the array is a fault, and the
-- rest goes to the queue of `Forward_MSG_Queue_Thread`.
unfoldable pub pipe_0000 : Memory → Memory → Result Message
pipe_0000 buff forward_data_buff =
    if make16ofxy (buff 4) (buff 3) == Event.att_write_request
    then (let rounds = buff 8 - 4 in
        let head = 0x00 ∷ 0x01 ∷ u8 (buff 8 + 256 - 4) ∷ cells buff 13 rounds in
        if ltb 100 (rounds + 13)
        then fault Fault.out_of_bounds
        else sys_mq_send (some Queue.peer_device) (memcpy forward_data_buff head)
            (u16 (buff 8 + 65536 - 4 + 3)))
    else (let rounds = buff 8 - 2 in
        let head = 0x00 ∷ 0x00 ∷ u8 (buff 8 + 256 - 2) ∷ cells buff 11 rounds in
        if ltb 100 (rounds + 11)
        then fault Fault.out_of_bounds
        else sys_mq_send (some Queue.peer_device) (memcpy forward_data_buff head)
            (u16 (buff 8 + 65536 - 2 + 3)))
