-- ===== src/Parameters.antt =====
-- BLE_Scanner/src/BLEParameters.c: `SetParamValue`, and the parameters of BLEParameters.h.
-- The packed structures lie over the ten bytes of `buffer`, 16-bit fields with their low byte first.
pub mod Requests
use ble_parking_gate_way.Prelude.{
  ℕ, Bool, false, ◌&&◌, ◌||◌, List, [], ◌∷◌, Option, none, some, Bytes, Memory, update, cells,
  length, minus_one, ltb, ◌==◌, if◌then◌else◌, Result, ok, fault, Fault,
}
use ble_parking_gate_way.Hci.{pkt_command, pkt_event, make16ofxy, lsbyteof16bit, msbyteof16bit}
use ble_parking_gate_way.Hci.Opcode
use ble_parking_gate_way.Hci.Event
use ble_parking_gate_way.Drivers.{sys_mq_recv}

-- `BLEParameters_t`
pub data Parameter : Type 0 where
  gen_disc_adv_min lim_adv_timeout gen_disc_scan lim_disc_scan conn_est_adv_timeout : Parameter
  conn_param_timeout lim_disc_adv_int_min lim_disc_adv_int_max gen_disc_adv_int_min : Parameter
  gen_disc_adv_int_max conn_adv_int_min conn_adv_int_max conn_scan_int conn_scan_wind : Parameter
  conn_high_scan_int conn_high_scan_wind gen_disc_scan_int gen_disc_scan_wind : Parameter
  lim_disc_scan_int lim_disc_scan_wind conn_est_adv conn_est_int_min conn_est_int_max : Parameter
  conn_est_scan_int conn_est_scan_wind conn_est_superv_timeout conn_est_latency : Parameter
  conn_est_min_ce_len conn_est_max_ce_len private_addr_int sm_timeout sm_min_key_len : Parameter
  sm_max_key_len filter_adv_reports scan_rsp_rssi_min set_rx_debug : Parameter

-- The values that the enumeration gives them.
unfoldable pub code : Parameter → ℕ
code gen_disc_adv_min = 0x00
code lim_adv_timeout = 0x01
code gen_disc_scan = 0x02
code lim_disc_scan = 0x03
code conn_est_adv_timeout = 0x04
code conn_param_timeout = 0x05
code lim_disc_adv_int_min = 0x06
code lim_disc_adv_int_max = 0x07
code gen_disc_adv_int_min = 0x08
code gen_disc_adv_int_max = 0x09
code conn_adv_int_min = 0x0A
code conn_adv_int_max = 0x0B
code conn_scan_int = 0x0C
code conn_scan_wind = 0x0D
code conn_high_scan_int = 0x0E
code conn_high_scan_wind = 0x0F
code gen_disc_scan_int = 0x10
code gen_disc_scan_wind = 0x11
code lim_disc_scan_int = 0x12
code lim_disc_scan_wind = 0x13
code conn_est_adv = 0x14
code conn_est_int_min = 0x15
code conn_est_int_max = 0x16
code conn_est_scan_int = 0x17
code conn_est_scan_wind = 0x18
code conn_est_superv_timeout = 0x19
code conn_est_latency = 0x1A
code conn_est_min_ce_len = 0x1B
code conn_est_max_ce_len = 0x1C
code private_addr_int = 0x1D
code sm_timeout = 0x1E
code sm_min_key_len = 0x1F
code sm_max_key_len = 0x20
code filter_adv_reports = 0x21
code scan_rsp_rssi_min = 0x22
code set_rx_debug = 0xFE

-- The labels of the `switch`, in its order.
abbrev switch_labels : List Parameter
switch_labels =
    gen_disc_adv_min ∷ lim_adv_timeout ∷ gen_disc_scan ∷ lim_disc_scan ∷ conn_est_adv_timeout
    ∷ conn_param_timeout ∷ lim_disc_adv_int_min ∷ lim_disc_adv_int_max ∷ gen_disc_adv_int_min
    ∷ gen_disc_adv_int_max ∷ conn_adv_int_min ∷ conn_adv_int_max ∷ conn_scan_int ∷ conn_scan_wind
    ∷ conn_high_scan_int ∷ conn_high_scan_wind ∷ gen_disc_scan_int ∷ gen_disc_scan_wind
    ∷ lim_disc_scan_int ∷ lim_disc_scan_wind ∷ conn_est_adv ∷ conn_est_int_min ∷ conn_est_int_max
    ∷ conn_est_scan_int ∷ conn_est_scan_wind ∷ conn_est_max_ce_len ∷ private_addr_int ∷ sm_timeout
    ∷ sm_min_key_len ∷ sm_max_key_len ∷ filter_adv_reports ∷ scan_rsp_rssi_min ∷ set_rx_debug
    ∷ conn_est_min_ce_len ∷ conn_est_latency ∷ conn_est_superv_timeout ∷ []

has_label : ℕ → List Parameter → Bool
has_label id [] = false
has_label id (p ∷ ps) = id == code p || has_label id ps

-- Whether the `switch` has a case for the parameter.
unfoldable pub has_case : ℕ → Bool
unfolding has_label code
has_case id = has_label id switch_labels

-- The request as it stands in `buffer` before the write; what has no case is left as it was.
unfoldable pub fill_request : ℕ → ℕ → Memory → Memory
fill_request id value buffer =
    let opcode = Opcode.set_parameter in
    let typed = update buffer 0 pkt_command in
    let coded = update (update typed 1 (lsbyteof16bit opcode)) 2 (msbyteof16bit opcode) in
    let counted = update coded 3 0x03 in
    if has_case id
    then update (update (update counted 4 id) 5 (lsbyteof16bit value)) 6 (msbyteof16bit value)
    else counted

-- `BLECOMWrite(buffer, sizeof(SetParamValue_t))`
unfoldable pub request_bytes : ℕ → ℕ → Memory → Bytes
unfolding fill_request
request_bytes id value buffer = cells (fill_request id value buffer) 0 7

-- The test on the answer, field by field.
unfoldable pub is_accepted : Memory → Bool
is_accepted m =
    m 5 == 0x00
    && make16ofxy (m 4) (m 3) == Event.command_status
    && make16ofxy (m 7) (m 6) == Opcode.set_parameter
    && m 1 == 0xFF
    && m 0 == pkt_event

-- What is returned, given the message that the queue yields. A message longer than the ten bytes
-- of `buffer` leaves it.
unfoldable pub set_param_value : ℕ → ℕ → Memory → Option Bytes → Result ℕ
set_param_value id value buffer none = ok minus_one
set_param_value id value buffer (some message) =
    let received = sys_mq_recv (some message) (fill_request id value buffer) 0 in
    if ltb 10 (length message)
    then fault Fault.buffer_overflow
    else if is_accepted received.buf
    then ok 0
    else ok minus_one
