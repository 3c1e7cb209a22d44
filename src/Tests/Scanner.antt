-- ===== src/Tests/Scanner.antt =====
-- `CentralModeThread` of BLE_Scanner/src/CentralModeThread.c at concrete inputs.
use ble_parking_gate_way.Prelude.{
  ℕ, ◌≡◌, refl, true, List, [], ◌∷◌, ◌++◌, Option, none, some, Bytes, cells,
}
use ble_parking_gate_way.Connections.Count.{Devices}
use ble_parking_gate_way.Commands
use ble_parking_gate_way.Central.State.{CentralState, Progress, Central, Inputs}
use ble_parking_gate_way.Drivers.{sys_mq_recv}
use ble_parking_gate_way.Central.Calls.{
  receive, device_scan_data, device_scan_cancel_req, device_scan_cancel_rsp, copy_down,
}
use ble_parking_gate_way.Central.Loop.{after_scan_data, turn, step, run}
use ble_parking_gate_way.Central.Scan.{is_match}
use ble_parking_gate_way.Central.Link.{link_target, establish_bytes}
use ble_parking_gate_way.Tests.{zeros, empty_list}

abbrev pub in_state : CentralState → Central
in_state state = record {
  state = state;
  progress = Progress.running;
  buffer = zeros;
  size = 0;
  mac = zeros;
  conn_handle = 0;
  written = [];
}

-- A turn in which the write succeeds and the queue yields `message`.
abbrev input : Devices → ℕ → Option Bytes → Inputs
input devices write_result message = record {
  write_result = write_result;
  message = message;
  devices = devices;
  residue = 1;
  led_idx = 0;
}

-- The advertisement of the device with the address 01:02:03:04:05:06.
abbrev advertisement : Bytes
advertisement =
    0x04 ∷ 0xFF ∷ 0x16 ∷ 0x0D ∷ 0x06 ∷ 0x00 ∷ 0x00 ∷ 0x00 ∷ 1 ∷ 2 ∷ 3 ∷ 4 ∷ 5 ∷ 6 ∷ 0xC8 ∷ 0x0B
    ∷ 0x02 ∷ 0x01 ∷ 0x06 ∷ 0x11 ∷ 0x07 ∷ 0x9E ∷ 0xCA ∷ 0xDC ∷ 0x24 ∷ []

-- The scan cancelled: event 0x0601 with the status 0x30.
abbrev cancelled : Bytes
cancelled = 0x04 ∷ 0xFF ∷ 0x06 ∷ 0x01 ∷ 0x06 ∷ 0x30 ∷ 0x00 ∷ 0x00 ∷ 0x00 ∷ []

abbrev link : Bytes
link = 0x04 ∷ 0xFF ∷ 0x13 ∷ 0x05 ∷ 0x06 ∷ 0x00 ∷ 0x00 ∷ 1 ∷ 2 ∷ 3 ∷ 4 ∷ 5 ∷ 6 ∷ 0x07 ∷ 0x00 ∷ []

abbrev scanning : Central
scanning = in_state CentralState.device_scan_data

abbrev matching : Inputs
matching = input empty_list 7 (some advertisement)

-- The scan is cancelled and its end is confirmed.
abbrev cancelling : List Inputs
cancelling = input empty_list 4 none ∷ input empty_list 4 (some cancelled) ∷ []

advertisement-is_match : is_match (receive scanning matching) ≡ true
unfolding receive sys_mq_recv
advertisement-is_match = refl

cancelled-state :
    (run (step scanning matching) cancelling).state ≡ CentralState.device_establish_link_req
unfolding run step turn device_scan_data after_scan_data device_scan_cancel_req
    device_scan_cancel_rsp receive sys_mq_recv Commands.device_scan_cancel_req copy_down
cancelled-state = refl

link_target_example :
    (step (run (step scanning matching) cancelling) (input empty_list 13 none)).written
    ≡ (run (step scanning matching) cancelling).written
      ++ establish_bytes (cells (receive scanning matching).buffer 8 6) ∷ []
link_target_example =
    link_target scanning matching cancelling (input empty_list 13 none) refl refl
      advertisement-is_match cancelled-state
