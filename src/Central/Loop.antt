-- ===== src/Central/Loop.antt =====
-- The loop of `CentralModeThread` in BLE_Scanner/src/CentralModeThread.c.
use ble_parking_gate_way.Prelude.{ℕ, List, [], ◌∷◌, ◌==◌, if◌then◌else◌, minus_one}
use ble_parking_gate_way.Commands
use ble_parking_gate_way.Central.State.{CentralState, Progress, Central, Inputs, ble_status}
use ble_parking_gate_way.Central.Calls.{
  device_scan_req, device_scan_data, device_scan_cancel_req, device_scan_cancel_rsp,
  device_establish_link_req, device_establish_link_rsp, enable_notification, bond,
}

abbrev pub go_to : CentralState → Central → Central
go_to state c = record c { state = state }

-- The ladder of tests on `ble_status` behind `Device_Scan_Data`. The last compares a `uint8_t`
-- with -1, as `int`s.
unfoldable pub after_scan_data : ℕ → CentralState
after_scan_data status =
    if status == 0
    then CentralState.device_scan_data
    else if status == 1
    then CentralState.device_scan_req
    else if status == 2
    then CentralState.device_scan_cancel
    else if status == minus_one
    then CentralState.device_scan_req
    else CentralState.device_scan_data

-- The `switch`; a state with no case leaves all as it is.
unfoldable pub turn : CentralState → Central → Inputs → Central
turn CentralState.init c i = go_to CentralState.device_scan_req c
turn CentralState.device_scan_req c i =
    let r = device_scan_req c i in
    if ble_status r.value i == 0
    then go_to CentralState.device_scan_data r.central
    else go_to CentralState.init r.central
turn CentralState.device_scan_data c i =
    let r = device_scan_data c i in go_to (after_scan_data (ble_status r.value i)) r.central
turn CentralState.device_scan_cancel c i =
    let r = device_scan_cancel_req c i in
    if ble_status r.value i == 0
    then go_to CentralState.device_scan_cancel_rsp r.central
    else r.central
turn CentralState.device_scan_cancel_rsp c i =
    let r = device_scan_cancel_rsp c i in
    if ble_status r.value i == 0
    then go_to CentralState.device_establish_link_req r.central
    else r.central
turn CentralState.device_establish_link_req c i =
    let r = device_establish_link_req c i in
    if ble_status r.value i == 0
    then go_to CentralState.device_establish_link_rsp r.central
    else r.central
turn CentralState.device_establish_link_rsp c i =
    let r = device_establish_link_rsp c i in
    if ble_status r.value i == 0 then bond r.central i else r.central
turn CentralState.enable_notification c i = (enable_notification c i).central
turn _ c i = c

abbrev pub step_in : Progress → Central → Inputs → Central
step_in Progress.running c i = turn c.state c i
step_in _ c i = c

-- One turn of `while(1)`.
unfoldable pub step : Central → Inputs → Central
step c i = step_in c.progress c i

unfoldable pub run : Central → List Inputs → Central
run c [] = c
run c (i ∷ is) = run (step c i) is

-- The thread before its loop: the globals are zero, and the setup commands are written.
unfoldable pub start : Central
start = record {
  state = CentralState.init;
  progress = Progress.running;
  buffer = λ _. 0;
  size = 0;
  mac = λ _. 0;
  conn_handle = 0;
  written = Commands.hci_reset ∷ Commands.hci_init ∷ Commands.param_update;
}
