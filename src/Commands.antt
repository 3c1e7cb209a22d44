-- ===== src/Commands.antt =====
-- The packets that BLE_Scanner/src/CentralModeThread.c and UartCmdRxThread.c write to the UART:
-- for each function the bytes that it hands to `BLECOMWrite`.
pub mod WellFormed
use ble_parking_gate_way.Prelude.{
  ℕ, ◌+◌, ◌-◌, ◌≤◌, List, [], ◌∷◌, ◌++◌, Bytes, Memory, cells, length, take, replicate, u8, ltb,
  minus_one, ◌==◌, if◌then◌else◌, Result, ok, fault, Fault,
}
use ble_parking_gate_way.Hci.{pkt_command, lsbyteof16bit, msbyteof16bit}
use ble_parking_gate_way.Hci.Opcode

-- `PKT_COMMAND`, the opcode with its low byte first, and the length byte as it is written.
abbrev header : ℕ → ℕ → Bytes
header opcode len = pkt_command ∷ lsbyteof16bit opcode ∷ msbyteof16bit opcode ∷ len ∷ []

unfoldable pub notify_ack : ℕ → Bytes
notify_ack conn_handle =
    0x01 ∷ 0x13 ∷ 0xFD ∷ 0x02 ∷ lsbyteof16bit conn_handle ∷ msbyteof16bit conn_handle ∷ []

unfoldable pub hci_reset : Bytes
hci_reset = header Opcode.bt_reset 0x00

-- The loops write the IRK, the CSRK and three bytes of the sign counter.
unfoldable pub hci_init : Bytes
hci_init =
    header Opcode.device_initialization 0x26
    ++ ((0x08 ∷ 0x14 ∷ [])
        ++ (replicate 16 0x00 ++ (replicate 16 0x00 ++ (replicate 3 0x00 ++ 0x01 ∷ []))))

-- `Scanned_MAC_Buff[5]` down to `Scanned_MAC_Buff[0]`
unfoldable pub device_establish_link_req : Memory → Bytes
device_establish_link_req mac =
    header Opcode.establish_link_request 0x09
    ++ (0x00 ∷ 0x00 ∷ 0x01 ∷ mac 5 ∷ mac 4 ∷ mac 3 ∷ mac 2 ∷ mac 1 ∷ mac 0 ∷ [])

unfoldable pub enable_notification : ℕ → Bytes
enable_notification conn_handle =
    header Opcode.gatt_writecharvalue 0x06
    ++ (lsbyteof16bit conn_handle
        ∷ msbyteof16bit conn_handle
        ∷ lsbyteof16bit 0x00
        ∷ lsbyteof16bit 0x01
        ∷ 0x01
        ∷ 0x00
        ∷ [])

-- The bytes of `bond[500]` that have an initialiser; those behind them are 0.
abbrev bond_data : Bytes
bond_data =
    0x01 ∷ 0x0B ∷ 0xFE ∷ 0xA0 ∷ 0x00 ∷ 0x00 ∷ 0x04 ∷ 0x00 ∷ 0x00 ∷ 0x00 ∷ 0x00 ∷ 0x00 ∷ 0x00 ∷ 0x00
    ∷ 0x00 ∷ 0x00 ∷ 0x00 ∷ 0x00 ∷ 0x00 ∷ 0x00 ∷ 0x00 ∷ 0x00 ∷ 0x00 ∷ 0x00 ∷ 0x00 ∷ 0x00 ∷ 0x00
    ∷ 0x00 ∷ 0x00 ∷ 0x00 ∷ 0x00 ∷ 0x00 ∷ 0x00 ∷ 0x00 ∷ 0x00 ∷ 0x00 ∷ 0x00 ∷ 0x00 ∷ 0x00 ∷ 0x00
    ∷ 0x00 ∷ 0x00 ∷ 0x00 ∷ 0x00 ∷ 0x00 ∷ 0x00 ∷ 0x00 ∷ 0x00 ∷ 0x00 ∷ 0x00 ∷ 0x00 ∷ 0x00 ∷ 0x00
    ∷ 0x00 ∷ 0x00 ∷ 0x00 ∷ 0x00 ∷ 0x00 ∷ 0x00 ∷ 0xBD ∷ 0x1A ∷ 0x3C ∷ 0xCD ∷ 0xA6 ∷ 0xB8 ∷ 0x99
    ∷ 0x58 ∷ 0x99 ∷ 0xB7 ∷ 0x40 ∷ 0xEB ∷ 0x7B ∷ 0x60 ∷ 0xFF ∷ 0x4A ∷ 0x50 ∷ 0x3F ∷ 0x10 ∷ 0xD2
    ∷ 0xE3 ∷ 0xB3 ∷ 0xC9 ∷ 0x74 ∷ 0x38 ∷ 0x5F ∷ 0xC5 ∷ 0xA3 ∷ 0xD4 ∷ 0xF6 ∷ 0x49 ∷ 0x3F ∷ 0xE6
    ∷ 0x9D ∷ 0x35 ∷ 0x0E ∷ 0x48 ∷ 0x01 ∷ 0x03 ∷ 0xCC ∷ 0xDB ∷ 0xFD ∷ 0xF4 ∷ 0xAC ∷ 0x11 ∷ 0x91
    ∷ 0xF4 ∷ 0xEF ∷ 0xB9 ∷ 0xA5 ∷ 0xF9 ∷ 0xE9 ∷ 0xA7 ∷ 0x83 ∷ 0x2C ∷ 0x5E ∷ 0x2C ∷ 0xBE ∷ 0x97
    ∷ 0xF2 ∷ 0xD2 ∷ 0x03 ∷ 0xB0 ∷ 0x20 ∷ 0x8B ∷ 0xD2 ∷ 0x89 ∷ 0x15 ∷ 0xD0 ∷ 0x8E ∷ 0x1C ∷ 0x74
    ∷ 0x24 ∷ 0x30 ∷ 0xED ∷ 0x8F ∷ 0xC2 ∷ 0x45 ∷ 0x63 ∷ 0x76 ∷ 0x5C ∷ 0x15 ∷ 0x52 ∷ 0x5A ∷ 0xBF
    ∷ 0x9A ∷ 0x32 ∷ 0x63 ∷ 0x6D ∷ 0xEB ∷ 0x2A ∷ 0x65 ∷ 0x49 ∷ 0x9C ∷ 0x80 ∷ 0xDC ∷ 0x01 ∷ 0x10
    ∷ 0x77 ∷ 0x00 ∷ 0x03 ∷ 0x00 ∷ 0x01 ∷ 0x10 ∷ 0x77 ∷ []

-- The loop copies the first 164.
unfoldable pub bond : Bytes
bond = take 164 bond_data

unfoldable pub notify : Bytes
notify = 0x01 ∷ 0x92 ∷ 0xFD ∷ 0x06 ∷ 0x00 ∷ 0x00 ∷ 0x0C ∷ 0x00 ∷ 0x01 ∷ 0x00 ∷ []

-- `idx` is not initialised: the 13 bytes are stored from its value on, in the 50 zeroed bytes of
-- `pac`, and `idx` bytes are written.
unfoldable pub data_led : ℕ → Result Bytes
data_led idx =
    if ltb 50 (idx + 13)
    then fault Fault.buffer_overflow
    else ok (
        replicate idx 0x00
        ++ (0x01 ∷ 0x92 ∷ 0xFD ∷ 0x09 ∷ 0x00 ∷ 0x00 ∷ 0x0E ∷ 0x00 ∷ 0x3C ∷ 0x30 ∷ 0x41 ∷ 0x30 ∷ 0x3E
            ∷ []))

unfoldable pub passkey : Bytes
passkey = 0x01 ∷ 0x0C ∷ 0xFE ∷ 0x08 ∷ 0x00 ∷ 0x00 ∷ 0x36 ∷ 0x35 ∷ 0x34 ∷ 0x33 ∷ 0x32 ∷ 0x31 ∷ []

unfoldable pub set_data_length : ℕ → Bytes
set_data_length handle_id_main =
    header 0x2022 (0x00 + 6)
    ++ (lsbyteof16bit (handle_id_main + 5)
        ∷ msbyteof16bit (handle_id_main + 5)
        ∷ 0x36
        ∷ 0x00
        ∷ 0x48
        ∷ 0x08
        ∷ [])

-- The PDU sizes are 54 and the times 656, for sending and for receiving.
unfoldable pub hciext_setmaxdatalength : Bytes
hciext_setmaxdatalength =
    header Opcode.set_max_data_length 0x08
    ++ (lsbyteof16bit 54
        ∷ msbyteof16bit 54
        ∷ lsbyteof16bit 656
        ∷ msbyteof16bit 656
        ∷ lsbyteof16bit 54
        ∷ msbyteof16bit 54
        ∷ lsbyteof16bit 656
        ∷ msbyteof16bit 656
        ∷ [])

-- Four bytes are stored in the 16 zeroed bytes of `pac`, and 12 are written.
unfoldable pub hciext_setlocalsupportedfeatures : Bytes
hciext_setlocalsupportedfeatures =
    take 12 (header Opcode.set_local_supported_features 0x08 ++ replicate 12 0x00)

-- The `status` of that function: what `write` returned is held against `idx`, which is 4.
unfoldable pub hciext_setlocalsupportedfeatures_status : ℕ → ℕ
hciext_setlocalsupportedfeatures_status written = if written == 4 then 0 else minus_one

unfoldable pub set_param : ℕ → ℕ → Bytes
set_param param_id intervals =
    header Opcode.set_parameter 0x03
    ++ (param_id ∷ lsbyteof16bit intervals ∷ msbyteof16bit intervals ∷ [])

unfoldable pub param_update : List Bytes
unfolding set_param
param_update =
    set_param 0x0C 0x1F40
    ∷ set_param 0x0D 0x1F40
    ∷ set_param 0x0E 0x1F40
    ∷ set_param 0x0F 0x1F40
    ∷ set_param 0x10 0x1F40
    ∷ set_param 0x11 0x1F40
    ∷ set_param 0x12 0x1F40
    ∷ set_param 0x13 0x1F40
    ∷ set_param 0x17 0x1F40
    ∷ set_param 0x18 0x1F40
    ∷ set_param 0x02 0x1388
    ∷ set_param 0x03 0x1388
    ∷ []

unfoldable pub hci_settxpower : Bytes
hci_settxpower = header Opcode.set_tx_power 0x01 ++ 0x0C ∷ []

unfoldable pub get_mac : Bytes
get_mac = header Opcode.bt_read_bd_addr 0x00

unfoldable pub device_scan_req : Bytes
device_scan_req = header Opcode.device_discovery_request 0x03 ++ (0x03 ∷ 0x01 ∷ 0x00 ∷ [])

unfoldable pub device_scan_cancel_req : Bytes
device_scan_cancel_req = header Opcode.device_discovery_cancel 0x00

-- `pac` has 100 bytes; behind its first 8 the loop stores `buffer[3]` to `buffer[size - 1]`.
unfoldable pub gatt_write_value : Memory → ℕ → ℕ → Result Bytes
gatt_write_value buffer size idz =
    if ltb 100 (8 + (size - 3))
    then fault Fault.buffer_overflow
    else ok (
        header Opcode.gatt_writecharvalue (u8 (size + 256 - 3 + 4))
        ++ (u8 idz ∷ 0x00 ∷ 0x03 ∷ 0x00 ∷ cells buffer 3 (size - 3)))

-- Here the loop stores behind the first 9. The connection `idz` is not used.
unfoldable pub notify_data : Memory → ℕ → ℕ → Result Bytes
notify_data buffer size idz =
    if ltb 100 (9 + (size - 3))
    then fault Fault.buffer_overflow
    else ok (
        header Opcode.gatt_notification (u8 (size + 256 - 3 + 5))
        ++ (0x00 ∷ 0x00 ∷ 0x00 ∷ 0x07 ∷ 0x00 ∷ cells buffer 3 (size - 3)))
