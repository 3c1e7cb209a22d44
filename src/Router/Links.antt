-- ===== src/Router/Links.antt =====
-- Disconnections, pipes and writes of the peer: what `UartCmdRxThread` of
-- BLE_Scanner/src/UartCmdRxThread.c does to the connection list, the pipe queues and the UART.
use ble_parking_gate_way.Prelude.{
  ℕ, ◌+◌, ◌≤◌, ◌<◌, ◌≡◌, ◌⊎◌, inl, inr, refl, sym, ap, ◌∙◌, ◌>>=◌, Memory, Bytes, false, ◌&&◌, List,
  [], ◌∷◌, ◌++◌, some, none, Option, Bool-cases, arith, ltb, lt→ltb, ◌==◌, if◌then◌else◌, Result,
  ok, fault, Fault,
}
use ble_parking_gate_way.Hci.{lsbyteof16bit, msbyteof16bit}
use ble_parking_gate_way.Hci.Event
use ble_parking_gate_way.Drivers.{Queue, mtext_size, sys_mq_send}
use ble_parking_gate_way.Connections.Count.{
  conn_device_list_size, max_num_peripherals, disconnect, tally, tally-disconnect,
  upadate_disconnection-tally,
}
use ble_parking_gate_way.Receiver.{Packet}
use ble_parking_gate_way.Receiver.Frames.{contents}
use ble_parking_gate_way.Router.{
  Gateway, opcode_of, send_on, data_ack, route_link_terminated, route_pipe, route_written,
  route_write_request, route, pipe_0_id, pipe_1_id, pipe_2_id, pipe_3_id,
}
use ble_parking_gate_way.Router.Forwarding.{IsVendorEvent, passed, send_on_ok}

route_terminated_eq :
    (g : Gateway) (p : Packet)
    → IsVendorEvent p.rx_packet Event.link_terminated
    → route g p ≡ route_link_terminated g p
unfolding route
route_terminated_eq g p v =
    rw (v.type_byte, v.code_byte, v.event_bytes, v.not_features, v.not_data_length)

-- The gateway after the link `handle` is terminated by the packet `p`.
abbrev pub terminated : ℕ → Gateway → Packet → Gateway
terminated handle g p = record g {
  devices = disconnect g.devices handle;
  slave_count = tally max_num_peripherals 0 (disconnect g.devices handle);
  sent = if p.rx_packet 8 == 0x3E then g.sent ++ (Queue.command_resp, contents p) ∷ [] else g.sent;
}

-- A terminated link among the six of the list is marked as gone, `Slave_Count` becomes the number
-- of links still connected among the first five, and the packet goes to `CentralModeThread`
-- exactly when its reason is 0x3E. Its at most 100 bytes are the condition.
pub route-link_terminated :
    (g : Gateway) (p : Packet)
    → IsVendorEvent p.rx_packet Event.link_terminated
    → opcode_of p.rx_packet < conn_device_list_size
    → p.index ≤ mtext_size
    → route g p ≡ ok (terminated (opcode_of p.rx_packet) g p)
unfolding route_link_terminated
route-link_terminated g p v h fits =
    let marked = record g { devices = disconnect g.devices (opcode_of p.rx_packet) } in
    route_terminated_eq g p v
    ∙ rw (lt→ltb _ _ h) (elim (Bool-cases (p.rx_packet 8 == 0x3E)) [
      | inl told ↦
          rw (told, send_on_ok Queue.command_resp marked p fits, upadate_disconnection-tally)
      | inr silent ↦ rw (silent, upadate_disconnection-tally)
    ])

-- When a connected link among the first five is terminated and the count was right, the count
-- falls by exactly one. The packet's at most 100 bytes are a condition.
pub slave_count-terminated :
    (g : Gateway) (p : Packet)
    → IsVendorEvent p.rx_packet Event.link_terminated
    → opcode_of p.rx_packet < max_num_peripherals
    → p.index ≤ mtext_size
    → (g.devices (opcode_of p.rx_packet)).status ≡ 1
    → g.slave_count ≡ tally max_num_peripherals 0 g.devices
    → (g' : Gateway) × (route g p ≡ ok g') × (g'.slave_count + 1 ≡ g.slave_count)
slave_count-terminated g p v h fits on counted = (
  terminated (opcode_of p.rx_packet) g p,
  route-link_terminated g p v (omega arith) fits,
  omega (arith, tally-disconnect 5 0 (opcode_of p.rx_packet) g.devices (omega arith) h on),
)

-- A terminated link whose 16-bit handle is 6 or more writes outside the connection list.
pub route-link_terminated_outside :
    (g : Gateway) (p : Packet)
    → IsVendorEvent p.rx_packet Event.link_terminated
    → conn_device_list_size ≤ opcode_of p.rx_packet
    → route g p ≡ fault Fault.out_of_bounds
unfolding route_link_terminated
route-link_terminated_outside g p v h =
    let outside : ltb (opcode_of p.rx_packet) conn_device_list_size ≡ false = ground arith in
    route_terminated_eq g p v ∙ rw outside

route_notification_eq :
    (g : Gateway) (p : Packet)
    → IsVendorEvent p.rx_packet Event.att_handle_value_notification
    → route g p ≡ route_pipe g p
unfolding route
route_notification_eq g p v =
    rw (v.type_byte, v.code_byte, v.event_bytes, v.not_features, v.not_data_length)

send_on_uninitialised : (g : Gateway) (p : Packet) → send_on none g p ≡ fault Fault.uninitialised
unfolding send_on sys_mq_send
send_on_uninitialised g p = refl

-- What becomes of a packet for a pipe, by the connection of its byte 6.
abbrev pub piped : ℕ → Gateway → Packet → Result Gateway
piped handle g p =
    if handle == 0
    then ok (passed Queue.pipe_0 g p)
    else if ltb handle 4
    then fault Fault.uninitialised
    else ok g

route_pipe-piped :
    (g : Gateway) (p : Packet) → p.index ≤ mtext_size → route_pipe g p ≡ piped (p.rx_packet 6) g p
unfolding route_pipe
route_pipe-piped g p fits =
    ground (arith, send_on_ok Queue.pipe_0 g p fits, send_on_uninitialised g p)

-- A notification of at most 100 bytes goes to pipe 0 for connection 0; for the connections 1 to 3
-- the thread uses a queue variable that was never assigned; for any other it is dropped.
pub route-notification :
    (g : Gateway) (p : Packet)
    → IsVendorEvent p.rx_packet Event.att_handle_value_notification
    → p.index ≤ mtext_size
    → route g p ≡ piped (p.rx_packet 6) g p
route-notification g p v fits = route_notification_eq g p v ∙ route_pipe-piped g p fits

send_on-written :
    (queue : Option Queue) (g : Gateway) (p : Packet) (g' : Gateway)
    → send_on queue g p ≡ ok g'
    → g'.written ≡ g.written
unfolding send_on sys_mq_send
send_on-written none g p g' h = cc
send_on-written (some queue) g p g' h = ground arith

-- A write of the peer, or a prepared one.
abbrev pub IsWrite : Memory → Type 0
IsWrite m =
    IsVendorEvent m Event.att_write_request ⊎ IsVendorEvent m Event.att_prepare_write_request

route_write_eq :
    (g : Gateway) (p : Packet) → IsWrite p.rx_packet → route g p ≡ route_write_request g p
unfolding route
route_write_eq g p (inl v) =
    rw (v.type_byte, v.code_byte, v.event_bytes, v.not_features, v.not_data_length)
route_write_eq g p (inr v) =
    rw (v.type_byte, v.code_byte, v.event_bytes, v.not_features, v.not_data_length)

-- The response that the peer of a write gets.
abbrev pub ack_bytes : ℕ → Bytes
ack_bytes handle = 0x01 ∷ 0x13 ∷ 0xFD ∷ 0x02 ∷ lsbyteof16bit handle ∷ msbyteof16bit handle ∷ []

data_ack-written :
    (handle : ℕ) (t : Gateway) → (data_ack handle t).written ≡ t.written ++ ack_bytes handle ∷ []
unfolding data_ack
data_ack-written handle t = refl

route_pipe-written :
    (g : Gateway) (p : Packet) (t : Gateway) → route_pipe g p ≡ ok t → t.written ≡ g.written
unfolding route_pipe
route_pipe-written g p t h = ground (
  arith,
  send_on-written pipe_0_id g p t,
  send_on-written pipe_1_id g p t,
  send_on-written pipe_2_id g p t,
  send_on-written pipe_3_id g p t,
)

route_written-written :
    (g : Gateway) (p : Packet) (t : Gateway) → route_written g p ≡ ok t → t.written ≡ g.written
unfolding route_written
route_written-written g p t h = ground (
  arith,
  send_on-written (some Queue.command_resp) g p t,
  send_on-written (some Queue.ping_pkt) g p t,
  route_pipe-written g p t,
)

acked :
    (o : Result Gateway) (handle : ℕ) (w : List Bytes) {g' : Gateway}
    → ((t : Gateway) → o ≡ ok t → t.written ≡ w)
    → (o >>= λ t. ok (data_ack handle t)) ≡ ok g'
    → g'.written ≡ w ++ ack_bytes handle ∷ []
acked (fault e) handle w keeps h = cc
acked (ok t) handle w keeps h = ground (arith, data_ack-written handle t, keeps t refl)

-- Whenever a write request or a prepared one is handled without a fault, exactly one packet is
-- written to the UART: the write response for the connection of its byte 6.
pub route-write_acked :
    (g : Gateway) (p : Packet) {g' : Gateway}
    → IsWrite p.rx_packet
    → route g p ≡ ok g'
    → g'.written ≡ g.written ++ ack_bytes (p.rx_packet 6) ∷ []
unfolding route_write_request
route-write_acked g p w h =
    acked (route_written g p) (p.rx_packet 6) g.written (λ t e. route_written-written g p t e)
      (sym (route_write_eq g p w) ∙ h)

-- A write of at most 100 bytes to the handle 0x0003 that is neither a command nor a ping goes to
-- the pipe of its connection, as a notification does, and is acknowledged after that.
pub route-write_data :
    (g : Gateway) (p : Packet)
    → IsWrite p.rx_packet
    → p.index ≤ mtext_size
    → p.rx_packet 11 ≡ 0x03
    → p.rx_packet 12 ≡ 0x00
    → (p.rx_packet 13 == 0x30 && p.rx_packet 14 == 0x31) ≡ false
    → (p.rx_packet 13 == 0x50 && p.rx_packet 14 == 0x42) ≡ false
    → route g p ≡ (piped (p.rx_packet 6) g p >>= λ t. ok (data_ack (p.rx_packet 6) t))
unfolding route_write_request route_written
route-write_data g p w fits lo hi plain no_ping =
    route_write_eq g p w
    ∙ ap (λ o. o >>= λ t. ok (data_ack (p.rx_packet 6) t)) (chosen ∙ route_pipe-piped g p fits)
  where
    chosen : route_written g p ≡ route_pipe g p
    chosen = ground arith
