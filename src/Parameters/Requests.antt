-- ===== src/Parameters/Requests.antt =====
-- What `SetParamValue` of BLE_Scanner/src/BLEParameters.c sends and accepts.
use ble_parking_gate_way.Prelude.{
  ℕ, ◌≤◌, ◌≡◌, refl, true, false, ◌&&◌, [], ◌∷◌, some, Bytes, Memory, length, minus_one, ltb, ◌==◌,
  if◌then◌else◌, ok, fault, Fault, arith,
}
use ble_parking_gate_way.Hci.{make16ofxy}
use ble_parking_gate_way.Drivers.{sys_mq_recv}
use ble_parking_gate_way.Commands.{set_param}
use ble_parking_gate_way.Parameters.{
  Parameter, gen_disc_adv_min, code, has_case, request_bytes, is_accepted, set_param_value,
}

has_case-code : (q : Parameter) → has_case (code q) ≡ true
unfolding has_case
has_case-code gen_disc_adv_min = refl
has_case-code _ = refl

-- For each of the 36 parameters and every value, `SetParamValue` sends the same seven bytes as
-- `SET_PARAM` of CentralModeThread.c, whatever its buffer held before.
pub request_bytes-set_param :
    (q : Parameter) (value : ℕ) (buffer : Memory)
    → request_bytes (code q) value buffer ≡ set_param (code q) value
unfolding request_bytes set_param
request_bytes-set_param q value buffer = rw (has_case-code q)

-- For any other parameter it sends three bytes that nothing has set: the identifier and the value
-- are what the buffer held before.
pub request_bytes_unknown :
    (id value : ℕ) (buffer : Memory)
    → has_case id ≡ false
    → request_bytes id value buffer
      ≡ 0x01 ∷ 0x30 ∷ 0xFE ∷ 0x03 ∷ buffer 4 ∷ buffer 5 ∷ buffer 6 ∷ []
unfolding request_bytes
request_bytes_unknown id value buffer h = rw h

-- A command status with `status` for the opcode of the bytes `lo` and `hi`.
abbrev pub status_event : ℕ → ℕ → ℕ → Bytes
status_event status lo hi = 0x04 ∷ 0xFF ∷ 0x06 ∷ 0x7F ∷ 0x06 ∷ status ∷ lo ∷ hi ∷ 0x00 ∷ []

-- A command status is taken for success exactly if its status is 0 and it answers opcode 0xFE30;
-- any other is reported as -1, for every parameter, value and buffer.
pub set_param_value-status :
    (id value : ℕ) (buffer : Memory) (status lo hi : ℕ)
    → set_param_value id value buffer (some (status_event status lo hi))
      ≡ ok (if status == 0 && make16ofxy hi lo == 0xFE30 then 0 else minus_one)
unfolding set_param_value sys_mq_recv is_accepted
set_param_value-status id value buffer status lo hi = ground arith

-- An answer of more than ten bytes, which the queue may carry, overruns the buffer.
pub set_param_value_too_long :
    (id value : ℕ) (buffer : Memory) (message : Bytes)
    → 11 ≤ length message
    → set_param_value id value buffer (some message) ≡ fault Fault.buffer_overflow
unfolding set_param_value
set_param_value_too_long id value buffer message h =
    let over : ltb 10 (length message) ≡ true = ground arith in rw over
