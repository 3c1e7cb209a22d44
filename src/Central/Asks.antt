-- ===== src/Central/Asks.antt =====
-- In which turns `CentralModeThread` of BLE_Scanner/src/CentralModeThread.c calls `sys_mq_recv`.
use ble_parking_gate_way.Prelude.{
  ◌≡◌, refl, Bool, true, false, ◌&&◌, Option, Bytes, length, ltb, ◌==◌, arith,
}
use ble_parking_gate_way.Connections.Count.{device_conn_count}
use ble_parking_gate_way.Commands
use ble_parking_gate_way.Central.State.{CentralState, Progress, Central, Inputs}
use ble_parking_gate_way.Central.Calls.{
  device_scan_req, device_scan_cancel_req, device_establish_link_req, enable_notification,
}
use ble_parking_gate_way.Central.Loop.{turn, step_in, step}

abbrev asks_in : CentralState → Inputs → Bool
asks_in CentralState.device_scan_req i =
    ltb (device_conn_count i.devices) 4 && i.write_result == length Commands.device_scan_req
asks_in CentralState.device_scan_data i = true
asks_in CentralState.device_scan_cancel_rsp i = true
asks_in CentralState.device_establish_link_rsp i = true
asks_in _ i = false

abbrev runs : Progress → Bool
runs Progress.running = true
runs _ = false

-- Whether the turn calls `sys_mq_recv`.
unfoldable pub asks : Central → Inputs → Bool
asks c i = runs c.progress && asks_in c.state i

turn_unasked :
    (s : CentralState) (c : Central) (i : Inputs) (m : Option Bytes)
    → asks_in s i ≡ false
    → turn s c (record i { message = m }) ≡ turn s c i
unfolding turn device_scan_req device_scan_cancel_req device_establish_link_req enable_notification
turn_unasked CentralState.init c i m h = refl
turn_unasked CentralState.device_scan_req c i m h = ground arith
turn_unasked CentralState.device_scan_data c i m h = cc
turn_unasked CentralState.device_scan_cancel_rsp c i m h = cc
turn_unasked CentralState.device_establish_link_rsp c i m h = cc
turn_unasked _ c i m h = refl

step_in_unasked :
    (p : Progress) (c : Central) (i : Inputs) (m : Option Bytes)
    → runs p && asks_in c.state i ≡ false
    → step_in p c (record i { message = m }) ≡ step_in p c i
step_in_unasked Progress.running c i m h = turn_unasked c.state c i m h
step_in_unasked _ c i m h = refl

-- Where a turn does not call it, the turn does not depend on what the queue yields.
pub step_unasked :
    (c : Central) (i : Inputs) (m : Option Bytes)
    → asks c i ≡ false
    → step c (record i { message = m }) ≡ step c i
unfolding step asks
step_unasked c i m h = step_in_unasked c.progress c i m h
