-- ===== src/Central/State.antt =====
-- The state of `CentralModeThread` in BLE_Scanner/src/CentralModeThread.c.
use ble_parking_gate_way.Prelude.{ℕ, List, Option, Bytes, Memory, Fault, u8}
use ble_parking_gate_way.Connections.Count.{Devices}

-- `CentralState_new_t`
pub data CentralState : Type 0 where
  init device_scan_req device_scan_rsp device_scan_data : CentralState
  device_scan_cancel device_scan_cancel_rsp : CentralState
  device_establish_link_req device_establish_link_rsp : CentralState
  device_discover_char_using_uuid device_discover_char_using_uuid_rsp : CentralState
  enable_notification enable_notification_rsp : CentralState
  device_write_master_id device_write_master_id_rsp update_conn_device : CentralState

-- Whether the thread still takes turns; `while(1);` stops it for good.
pub data Progress : Type 0 where
  running spinning : Progress
  faulted : Fault → Progress

-- `buffer`, `size`, `Scanned_MAC_Buff` and `Conn_Handle` are globals of the file; `written` holds
-- the packets written to the UART, oldest first.
pub record Central : Type 0 where
  pub state : CentralState
  pub progress : Progress
  pub buffer : Memory
  pub size : ℕ
  pub mac : Memory
  pub conn_handle : ℕ
  pub written : List Bytes

-- What a turn of the loop meets: the result of `write`, the message that `msgrcv` yields (`none`
-- where it fails), the connection list, the value that a caller reads of a function that ends
-- without `return`, and the initial value of `idx` in `data_led`.
pub record Inputs : Type 0 where
  pub write_result : ℕ
  pub message : Option Bytes
  pub devices : Devices
  pub residue : ℕ
  pub led_idx : ℕ

-- How a function of type `int` ends.
pub data Return : Type 0 where
  returned : ℕ → Return
  fell_off : Return

-- `ble_status`, a `uint8_t`, after the call.
abbrev pub ble_status : Return → Inputs → ℕ
ble_status (returned n) i = u8 n
ble_status fell_off i = u8 i.residue

pub record Call : Type 0 where
  pub central : Central
  pub value : Return
