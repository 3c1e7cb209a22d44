-- ===== src/Tests/Uart.antt =====
-- The receiver and the router of BLE_Scanner/src/UartCmdRxThread.c at concrete inputs.
use ble_parking_gate_way.Prelude.{
  ◌<◌, ◌≡◌, ◌⊎◌, refl, inl, List, [], ◌∷◌, replicate, Bytes, arith, ok, ◌>>=◌,
}
use ble_parking_gate_way.Drivers.{Queue}
use ble_parking_gate_way.Hci.Event
use ble_parking_gate_way.Receiver.{State, ble_asd_pkt, run}
use ble_parking_gate_way.Receiver.Frames.{
  contents, ready, Item, noise, event, wire, All, Receives, run-wire,
}
use ble_parking_gate_way.Receiver.Edges.{asd_wedges, IsValid, run-IsValid}
use ble_parking_gate_way.Router.{Gateway, data_ack, route}
use ble_parking_gate_way.Router.Forwarding.{IsVendorEvent, passed}
use ble_parking_gate_way.Router.Links.{
  terminated, route-link_terminated, piped, ack_bytes, route-write_acked, route-write_data,
}
use ble_parking_gate_way.Router.Sent.{route-sends_once}
use ble_parking_gate_way.Tests.{zeros, packet_of, gateway, terminated_link, peer_write}

abbrev two_items : List Item
two_items = noise 0x55 ∷ event 0xFF (0x7F ∷ 0x06 ∷ 0x00 ∷ []) ∷ []

run-wire_example : Receives two_items (run (ready zeros) (wire two_items))
run-wire_example =
    run-wire two_items zeros ((ground arith, ground arith), ((omega arith, omega arith), tt))

asd_wedges_example :
    ((run (ready zeros) (ble_asd_pkt ∷ 0x41 ∷ 0x04 ∷ [])).0.current_state ≡ State.error)
    × ((run (ready zeros) (ble_asd_pkt ∷ 0x41 ∷ 0x04 ∷ [])).1 ≡ [])
asd_wedges_example = asd_wedges zeros 0x41 (0x04 ∷ []) (ground arith) (ground arith)

abbrev long_payload : Bytes
long_payload = replicate 254 0x41

ready-IsValid : IsValid (ready zeros)
ready-IsValid = record {
  index_fits = omega arith;
  count_fits = omega arith;
  idle_empty = λ h. refl;
  events_only = λ h. ground arith;
}

run-IsValid_example :
    IsValid (run (ready zeros) (0x04 ∷ 0xFF ∷ [])).0
    × All (λ p. p.index < 256) (run (ready zeros) (0x04 ∷ 0xFF ∷ [])).1
run-IsValid_example =
    run-IsValid (0x04 ∷ 0xFF ∷ []) (ready zeros) (omega arith, (omega arith, tt)) ready-IsValid

terminated_link-IsVendorEvent :
    IsVendorEvent (packet_of terminated_link).rx_packet Event.link_terminated
terminated_link-IsVendorEvent = record {
  type_byte = refl;
  code_byte = refl;
  event_bytes = refl;
  not_features = refl;
  not_data_length = refl;
}

route-link_terminated_example :
    route gateway (packet_of terminated_link)
    ≡ ok (terminated 2 gateway (packet_of terminated_link))
route-link_terminated_example =
    route-link_terminated gateway (packet_of terminated_link) terminated_link-IsVendorEvent
      (omega arith) (omega arith)

peer_write-IsVendorEvent : IsVendorEvent (packet_of peer_write).rx_packet Event.att_write_request
peer_write-IsVendorEvent = record {
  type_byte = refl;
  code_byte = refl;
  event_bytes = refl;
  not_features = refl;
  not_data_length = refl;
}

peer_write-routed :
    route gateway (packet_of peer_write)
    ≡ (piped 0 gateway (packet_of peer_write) >>= λ t. ok (data_ack 0 t))
peer_write-routed =
    route-write_data gateway (packet_of peer_write) (inl peer_write-IsVendorEvent) (omega arith)
      refl refl refl refl

route-write_acked_example :
    (data_ack 0 (passed Queue.pipe_0 gateway (packet_of peer_write))).written ≡ ack_bytes 0 ∷ []
route-write_acked_example =
    route-write_acked gateway (packet_of peer_write) (inl peer_write-IsVendorEvent)
      peer_write-routed

-- What the thread makes of a packet that it sends on.
abbrev sent_on : Gateway
sent_on = data_ack 0 (passed Queue.pipe_0 gateway (packet_of peer_write))

route-sends_once_example :
    (sent_on.sent ≡ [])
    ⊎ ((queue : Queue) × (sent_on.sent ≡ (queue, contents (packet_of peer_write)) ∷ []))
route-sends_once_example =
    route-sends_once gateway (packet_of peer_write) (omega arith) peer_write-routed
