-- ===== src/Hci/Opcode.antt =====
-- BLE_Scanner/src/HCI_Commands.h: the opcodes of the commands that the code names.
use ble_parking_gate_way.Prelude.{ℕ}

abbrev pub bt_reset : ℕ
bt_reset = 0x0C03

abbrev pub bt_read_bd_addr : ℕ
bt_read_bd_addr = 0x1009

abbrev pub set_tx_power : ℕ
set_tx_power = 0xFC01

abbrev pub set_local_supported_features : ℕ
set_local_supported_features = 0xFC06

abbrev pub set_max_data_length : ℕ
set_max_data_length = 0xFC21

abbrev pub att_write_response : ℕ
att_write_response = 0xFD13

abbrev pub gatt_writecharvalue : ℕ
gatt_writecharvalue = 0xFD92

abbrev pub gatt_notification : ℕ
gatt_notification = 0xFD9B

abbrev pub gatt_delservice : ℕ
gatt_delservice = 0xFDFD

abbrev pub device_initialization : ℕ
device_initialization = 0xFE00

abbrev pub device_discovery_request : ℕ
device_discovery_request = 0xFE04

abbrev pub device_discovery_cancel : ℕ
device_discovery_cancel = 0xFE05

abbrev pub end_discoverable : ℕ
end_discoverable = 0xFE08

abbrev pub establish_link_request : ℕ
establish_link_request = 0xFE09

abbrev pub set_parameter : ℕ
set_parameter = 0xFE30
