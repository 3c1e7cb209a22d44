-- ===== src/Tests/Edges.antt =====
-- Branches of the scanner, of LED_Manager and of the cloud's subscriber that are seldom taken, at concrete
-- inputs.
use ble_parking_gate_way.Prelude.{
  ℕ, ◌+◌, ◌≡◌, refl, List, [], ◌∷◌, ◌++◌, map, some, Bytes, replicate, length, arith,
}
use ble_parking_gate_way.Receiver.{State, Receiver, Packet, ble_evt_pkt, run}
use ble_parking_gate_way.Receiver.Frames.{ready, contents, event_bytes}
use ble_parking_gate_way.Receiver.Edges.{run-zero_length, run-too_long}
use ble_parking_gate_way.Router.{route}
use ble_parking_gate_way.Router.Total.{Succeeds, route-Succeeds}
use ble_parking_gate_way.Central.State.{CentralState}
use ble_parking_gate_way.Central.Answers.{
  enable_notification_rsp, enable_notification_rsp-verdict, result,
}
use ble_parking_gate_way.Led.{Gpio}
use ble_parking_gate_way.Led.Pass
use ble_parking_gate_way.Led.Pass.{toggling}
use ble_parking_gate_way.Tests.{zeros, gateway, packet_of, peer_write, scan_status}
use ble_parking_gate_way.Tests.Scanner.{in_state}

route-Succeeds_example : Succeeds (route gateway (packet_of peer_write))
route-Succeeds_example = route-Succeeds gateway (packet_of peer_write) (omega arith) refl refl

-- An event without a payload, and the start of another.
run-zero_length_example :
    (r : Receiver) × (p : Packet) × (run (ready zeros) (event_bytes 0x0E [] ++ 0x04 ∷ scan_status)
      ≡ ((run r scan_status).0, p ∷ (run r scan_status).1))
    × (r.current_state ≡ State.idle)
    × (contents p ≡ ble_evt_pkt ∷ 0x0E ∷ 0 ∷ 0x04 ∷ [])
run-zero_length_example = run-zero_length zeros 0x0E 0x04 scan_status

run-too_long_example :
    (p : Packet) × ((run (ready zeros) (event_bytes 0xFF (replicate 254 0x41))).1 ≡ p ∷ [])
    × (p.index + 253 ≡ length {A = ℕ} (replicate 254 0x41))
run-too_long_example = run-too_long zeros 0xFF (replicate 254 0x41) (omega arith) (omega arith)

-- The status of a scan, and then that of the command 0xFD92.
abbrev grant : Bytes
grant = 0x04 ∷ 0xFF ∷ 0x06 ∷ 0x7F ∷ 0x06 ∷ 0x00 ∷ 0x92 ∷ 0xFD ∷ 0x00 ∷ []

abbrev statuses : List Bytes
statuses = scan_status ∷ grant ∷ scan_status ∷ scan_status ∷ []

enable_notification_rsp-verdict_example :
    result (enable_notification_rsp (map some statuses) (in_state CentralState.device_scan_req))
    ≡ some 0
enable_notification_rsp-verdict_example =
    enable_notification_rsp-verdict statuses (in_state CentralState.device_scan_req)
      (omega arith, (omega arith, (omega arith, (omega arith, tt)))) (omega arith)

abbrev toggled : Gpio
toggled i = toggling 0 1
