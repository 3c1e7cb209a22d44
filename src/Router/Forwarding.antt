-- ===== src/Router/Forwarding.antt =====
-- Which packets the thread of BLE_Scanner/src/UartCmdRxThread.c passes to which queue.
use ble_parking_gate_way.Prelude.{
  ℕ, ◌≤◌, ◌<◌, ◌≡◌, Bool, true, false, [], ◌∷◌, ◌++◌, some, arith, ltb, Memory, u16, ◌==◌, ok,
  fault, Fault, ◌⊎◌, inl, inr, ◌∙◌, ◌||◌,
}
use ble_parking_gate_way.Hci.Event
use ble_parking_gate_way.Drivers.{Queue, mtext_size, sys_mq_send}
use ble_parking_gate_way.Receiver.{Packet, ble_evt_pkt}
use ble_parking_gate_way.Receiver.Frames.{contents}
use ble_parking_gate_way.Router.{Gateway, event_of, opcode_of, send_on, route_command_status, route}

-- A vendor packet for `event` that the two tests on an answered opcode let through.
pub record IsVendorEvent (m : Memory) (event : ℕ) : Type 0 where
  pub type_byte : m 0 ≡ ble_evt_pkt
  pub code_byte : m 1 ≡ 0xFF
  pub event_bytes : event_of m ≡ event
  pub not_features : (opcode_of m == 0xFC06) ≡ false
  pub not_data_length : (opcode_of m == 0xFC21) ≡ false

-- The gateway once the packet's bytes are sent on a queue.
abbrev pub passed : Queue → Gateway → Packet → Gateway
passed queue g p = record g { sent = g.sent ++ (queue, contents p) ∷ [] }

pub send_on_ok :
    (queue : Queue) (g : Gateway) (p : Packet)
    → p.index ≤ mtext_size
    → send_on (some queue) g p ≡ ok (passed queue g p)
unfolding send_on sys_mq_send
send_on_ok queue g p fits =
    let e : u16 p.index ≡ p.index = omega arith in
    let short : ltb mtext_size (u16 p.index) ≡ false = ground arith in rw short (rw e)

pub send_on_too_long :
    (queue : Queue) (g : Gateway) (p : Packet)
    → mtext_size < p.index
    → p.index < 256
    → send_on (some queue) g p ≡ fault Fault.buffer_overflow
unfolding send_on sys_mq_send
send_on_too_long queue g p long fits =
    let over : ltb mtext_size (u16 p.index) ≡ true = ground arith in rw over

-- The events that `CentralModeThread` waits for, and those a peripheral answers.
pub data Answer : Type 0 where
  mtu_request read_by_type_request read_by_group_request read_request : Answer
  device_information link_established device_discovery read_by_type_response : Answer

abbrev pub answer_event : Answer → ℕ
answer_event mtu_request = 0x0502
answer_event read_by_type_request = 0x0508
answer_event read_by_group_request = 0x0510
answer_event read_request = 0x050A
answer_event device_information = 0x060D
answer_event link_established = 0x0605
answer_event device_discovery = 0x0601
answer_event read_by_type_response = 0x0509

route_answer_eq :
    (a : Answer) (g : Gateway) (p : Packet)
    → IsVendorEvent p.rx_packet (answer_event a)
    → route g p ≡ send_on (some Queue.command_resp) g p
unfolding route
route_answer_eq mtu_request g p v =
    rw (v.type_byte, v.code_byte, v.event_bytes, v.not_features, v.not_data_length)
route_answer_eq _ g p v =
    rw (v.type_byte, v.code_byte, v.event_bytes, v.not_features, v.not_data_length)

-- An event of these eight, in a packet of at most 100 bytes, is sent once, byte for byte, on the
-- queue that `CentralModeThread` reads, and nothing else changes.
pub route-answer :
    (a : Answer) (g : Gateway) (p : Packet)
    → IsVendorEvent p.rx_packet (answer_event a)
    → p.index ≤ mtext_size
    → route g p ≡ ok (passed Queue.command_resp g p)
route-answer a g p v fits = route_answer_eq a g p v ∙ send_on_ok Queue.command_resp g p fits

-- The same event in a packet of more than 100 bytes overruns the message buffer.
pub route-answer_too_long :
    (a : Answer) (g : Gateway) (p : Packet)
    → IsVendorEvent p.rx_packet (answer_event a)
    → mtext_size < p.index
    → p.index < 256
    → route g p ≡ fault Fault.buffer_overflow
route-answer_too_long a g p v long fits =
    route_answer_eq a g p v ∙ send_on_too_long Queue.command_resp g p long fits

-- The opcodes whose command status is kept from the queue of `CentralModeThread`.
abbrev pub is_kept_opcode : ℕ → Bool
is_kept_opcode opcode =
    opcode == 0xFDFD
    || opcode == 0xFD9B
    || opcode == 0xFD13
    || opcode == 0xFD92
    || opcode == 0xFDB6
    || opcode == 0xFE30
    || opcode == 0xFDFC
    || opcode == 0xFDFE
    || opcode == 0xFE06
    || opcode == 0xFE07

route_status_eq :
    (g : Gateway) (p : Packet)
    → IsVendorEvent p.rx_packet Event.command_status
    → route g p ≡ route_command_status g p
unfolding route
route_status_eq g p v =
    rw (v.type_byte, v.code_byte, v.event_bytes, v.not_features, v.not_data_length)

command_status-forward :
    (g : Gateway) (p : Packet)
    → is_kept_opcode (opcode_of p.rx_packet) ≡ false
    → route_command_status g p ≡ send_on (some Queue.command_resp) g p
unfolding route_command_status
command_status-forward g p h = ground arith

-- A command status in a packet of at most 100 bytes goes to the queue that `CentralModeThread`
-- reads, byte for byte, for every opcode but 0xFC06, 0xFC21 and those of `is_kept_opcode`.
pub route-command_status :
    (g : Gateway) (p : Packet)
    → IsVendorEvent p.rx_packet Event.command_status
    → is_kept_opcode (opcode_of p.rx_packet) ≡ false
    → p.index ≤ mtext_size
    → route g p ≡ ok (passed Queue.command_resp g p)
route-command_status g p v h fits =
    route_status_eq g p v ∙ command_status-forward g p h ∙ send_on_ok Queue.command_resp g p fits

-- The status of a notification (0xFD9B) or of a write (0xFD92), in a packet of at most 100
-- bytes, goes to the queue on which `Forward_MSG_Queue_Thread` waits for it.
pub route-write_status :
    (g : Gateway) (p : Packet)
    → IsVendorEvent p.rx_packet Event.command_status
    → (opcode_of p.rx_packet ≡ 0xFD9B) ⊎ (opcode_of p.rx_packet ≡ 0xFD92)
    → p.index ≤ mtext_size
    → route g p ≡ ok (passed Queue.write_rsp g p)
unfolding route_command_status
route-write_status g p v (inl e) fits =
    route_status_eq g p v ∙ rw e (send_on_ok Queue.write_rsp g p fits)
route-write_status g p v (inr e) fits =
    route_status_eq g p v ∙ rw e (send_on_ok Queue.write_rsp g p fits)

-- An HCI command complete (0x0E), as the answer to `GET_MAC` is, is dropped whatever it holds:
-- the second test for it, which would send it on, is never reached.
pub route-command_complete :
    (g : Gateway) (p : Packet)
    → p.rx_packet 0 ≡ ble_evt_pkt
    → p.rx_packet 1 ≡ 0x0E
    → route g p ≡ ok g
unfolding route
route-command_complete g p t c = rw (t, c)
