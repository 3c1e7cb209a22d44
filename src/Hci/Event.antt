-- ===== src/Hci/Event.antt =====
-- BLE_Scanner/src/HCI_Commands.h: the codes of the vendor events that the code names.
use ble_parking_gate_way.Prelude.{ℕ}

abbrev pub att_exchange_mtu_request : ℕ
att_exchange_mtu_request = 0x0502

abbrev pub att_read_by_type_request : ℕ
att_read_by_type_request = 0x0508

abbrev pub att_read_by_type_response : ℕ
att_read_by_type_response = 0x0509

abbrev pub att_read_request : ℕ
att_read_request = 0x050A

abbrev pub att_read_by_group_type_request : ℕ
att_read_by_group_type_request = 0x0510

abbrev pub att_write_request : ℕ
att_write_request = 0x0512

abbrev pub att_write_response : ℕ
att_write_response = 0x0513

abbrev pub att_prepare_write_request : ℕ
att_prepare_write_request = 0x0516

abbrev pub att_handle_value_notification : ℕ
att_handle_value_notification = 0x051B

abbrev pub device_discovery : ℕ
device_discovery = 0x0601

abbrev pub advert_data_update_done : ℕ
advert_data_update_done = 0x0602

abbrev pub make_discoverable_done : ℕ
make_discoverable_done = 0x0603

abbrev pub link_established : ℕ
link_established = 0x0605

abbrev pub link_terminated : ℕ
link_terminated = 0x0606

abbrev pub link_parameter_update : ℕ
link_parameter_update = 0x0607

abbrev pub device_information : ℕ
device_information = 0x060D

abbrev pub command_status : ℕ
command_status = 0x067F
