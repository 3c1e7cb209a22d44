-- ===== src/Hci.antt =====
-- BLE_Scanner/src/HCI_Commands.h: packet types, opcodes, event codes, and the byte macros.
-- `MAKE16OFXY` is `(x << 8) | y`; its arguments are bytes everywhere, so `|` is `+`.
pub mod Opcode
pub mod Event
use ble_parking_gate_way.Prelude.{ℕ, ◌+◌, ◌*◌, ◌/◌, ◌%◌}

abbrev pub pkt_command : ℕ
pkt_command = 0x01

abbrev pub pkt_event : ℕ
pkt_event = 0x04

abbrev pub make16ofxy : ℕ → ℕ → ℕ
make16ofxy x y = x * 256 + y

abbrev pub lsbyteof16bit : ℕ → ℕ
lsbyteof16bit x = x % 256

abbrev pub msbyteof16bit : ℕ → ℕ
msbyteof16bit x = x / 256 % 256
