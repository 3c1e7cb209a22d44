-- ===== src/Router.antt =====
-- What `UartCmdRxThread` of BLE_Scanner/src/UartCmdRxThread.c does with a packet: the ladder of
-- tests under `count <= 0`, and `data_ack`.
pub mod Forwarding
pub mod Links
pub mod Sent
pub mod Total
use ble_parking_gate_way.Prelude.{
  ℕ, Bool, ◌&&◌, ◌||◌, List, [], ◌∷◌, ◌++◌, Option, none, some, Bytes, Memory, ltb, ◌==◌,
  if◌then◌else◌, Result, ok, fault, Fault, ◌>>=◌,
}
use ble_parking_gate_way.Hci.{make16ofxy, lsbyteof16bit, msbyteof16bit}
use ble_parking_gate_way.Hci.Opcode
use ble_parking_gate_way.Hci.Event
use ble_parking_gate_way.Drivers.{Queue, Message, sys_mq_send}
use ble_parking_gate_way.Connections.Count.{
  Devices, conn_device_list_size, upadate_disconnection, disconnect,
}
use ble_parking_gate_way.Receiver.{Packet, ble_evt_pkt}

-- What the thread shares with the others: `Conn_Device_List`, `BLE_Mode_Change.Slave_Count`, the
-- messages sent so far and the packets written to the UART so far, oldest first.
pub record Gateway : Type 0 where
  pub devices : Devices
  pub slave_count : ℕ
  pub sent : List Message
  pub written : List Bytes

-- The queue variables of the pipes: `Pipe_0_Id` is opened before the loop, the others are never
-- assigned.
abbrev pub pipe_0_id : Option Queue
pipe_0_id = some Queue.pipe_0

abbrev pub pipe_1_id : Option Queue
pipe_1_id = none

abbrev pub pipe_2_id : Option Queue
pipe_2_id = none

abbrev pub pipe_3_id : Option Queue
pipe_3_id = none

abbrev pub is_vendor : Memory → Bool
is_vendor m = m 0 == ble_evt_pkt && m 1 == 0xFF

-- `MAKE16OFXY(rx_packet[4], rx_packet[3])`, the event of a vendor packet
abbrev pub event_of : Memory → ℕ
event_of m = make16ofxy (m 4) (m 3)

-- `MAKE16OFXY(rx_packet[7], rx_packet[6])`, the opcode that a command status answers
abbrev pub opcode_of : Memory → ℕ
opcode_of m = make16ofxy (m 7) (m 6)

abbrev is_event : Memory → ℕ → Bool
is_event m event = is_vendor m && event_of m == event

unfoldable pub send_on : Option Queue → Gateway → Packet → Result Gateway
send_on queue g p = do
  message ← sys_mq_send queue p.rx_packet p.index
  ok (record g { sent = g.sent ++ message ∷ [] })

unfoldable pub data_ack : ℕ → Gateway → Gateway
data_ack handle g = record g {
  written =
      g.written
      ++ (0x01 ∷ 0x13 ∷ 0xFD ∷ 0x02 ∷ lsbyteof16bit handle ∷ msbyteof16bit handle ∷ []) ∷ [];
}

-- The tests under `VS_COMMAND_STATUS`; the branches that only print leave all as it was.
unfoldable pub route_command_status : Gateway → Packet → Result Gateway
route_command_status g p =
    let opcode = opcode_of p.rx_packet in
    if opcode == Opcode.gatt_delservice
    then ok g
    else if opcode == 0xFD9B
    then send_on (some Queue.write_rsp) g p
    else if opcode == Opcode.att_write_response
    then ok g
    else if opcode == 0xFD92
    then send_on (some Queue.write_rsp) g p
    else if opcode == 0xFDB6
    then ok g
    else if opcode == 0xFE30
    then ok g
    else if opcode == 0xFDFC || opcode == 0xFDFE
    then ok g
    else if opcode == 0xFE06 || opcode == 0xFE07
    then ok g
    else if opcode == 0xFE06 || opcode == 0xFE08
    then send_on (some Queue.command_resp) g p
    else send_on (some Queue.command_resp) g p

-- `Conn_Device_List` has six entries, and the handle is 16 bits of the packet.
unfoldable pub route_link_terminated : Gateway → Packet → Result Gateway
route_link_terminated g p =
    let m = p.rx_packet in
    let handle = make16ofxy (m 7) (m 6) in
    if ltb handle conn_device_list_size
    then (do
      let devices = disconnect g.devices handle
      let marked = record g { devices = devices }
      told ← (if m 8 == 0x3E then send_on (some Queue.command_resp) marked p else ok marked)
      ok (record told { slave_count = upadate_disconnection told.devices }))
    else fault Fault.out_of_bounds

-- `if (rx_packet[6] == 0x00) ... else if (rx_packet[6] == 0x03) ...`
unfoldable pub route_pipe : Gateway → Packet → Result Gateway
route_pipe g p =
    let handle = p.rx_packet 6 in
    if handle == 0x00
    then send_on pipe_0_id g p
    else if handle == 0x01
    then send_on pipe_1_id g p
    else if handle == 0x02
    then send_on pipe_2_id g p
    else if handle == 0x03
    then send_on pipe_3_id g p
    else ok g

-- The queue that a write request goes to.
unfoldable pub route_written : Gateway → Packet → Result Gateway
route_written g p =
    let m = p.rx_packet in
    if m 13 == 0x30 && m 14 == 0x31
    then send_on (some Queue.command_resp) g p
    else if m 11 == 0x05 || m 11 == 0x09
    then send_on (some Queue.command_resp) g p
    else if m 13 == 0x50 && m 14 == 0x42 && m 31 == 0x50 && m 32 == 0x45
    then send_on (some Queue.ping_pkt) g p
    else if make16ofxy (m 12) (m 11) == 0x0003
    then route_pipe g p
    else ok g

unfoldable pub route_write_request : Gateway → Packet → Result Gateway
route_write_request g p = route_written g p >>= λ told. ok (data_ack (p.rx_packet 6) told)

-- The whole ladder, test by test.
unfoldable pub route : Gateway → Packet → Result Gateway
route g p =
    let m = p.rx_packet in
    let forward = send_on (some Queue.command_resp) g p in
    if m 0 == ble_evt_pkt && m 1 == 0x10
    then ok g
    else if is_vendor m && opcode_of m == 0xFC06
    then ok g
    else if is_vendor m && opcode_of m == 0xFC21
    then ok g
    else if is_event m 0x0604
    then ok g
    else if m 0 == ble_evt_pkt && m 1 == 0x0E
    then ok g
    else if m 0 == ble_evt_pkt && m 1 == 0x0E
    then forward
    else if is_event m Event.link_parameter_update
    then ok g
    else if is_event m Event.att_read_by_type_request
    then forward
    else if is_event m Event.att_read_by_group_type_request
    then forward
    else if is_event m Event.att_read_request
    then forward
    else if is_event m Event.att_exchange_mtu_request
    then forward
    else if is_event m Event.advert_data_update_done
    then ok g
    else if is_event m Event.make_discoverable_done
    then ok g
    else if is_event m Event.command_status
    then route_command_status g p
    else if is_event m Event.device_information
    then forward
    else if is_event m Event.link_established
    then forward
    else if is_event m Event.device_discovery
    then forward
    else if is_event m Event.att_read_by_type_response
    then forward
    else if is_event m Event.att_write_response
    then ok g
    else if is_event m Event.link_terminated
    then route_link_terminated g p
    else if is_event m Event.att_handle_value_notification
    then route_pipe g p
    else if is_event m Event.att_write_request || is_event m Event.att_prepare_write_request
    then route_write_request g p
    else ok g
