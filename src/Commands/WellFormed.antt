-- ===== src/Commands/WellFormed.antt =====
-- The layout of the command packets of BLE_Scanner/src/CentralModeThread.c and UartCmdRxThread.c.
use ble_parking_gate_way.Prelude.{
  ℕ, zero, suc, true, false, ◌+◌, ◌-◌, ◌≤◌, ◌≡◌, refl, ◌∷◌, Bytes, Memory, cells, length-cells,
  length, u8, ltb, minus_one, ◌==◌, if◌then◌else◌, ok, fault, Fault, arith,
}
use ble_parking_gate_way.Hci.{pkt_command, lsbyteof16bit, msbyteof16bit}
use ble_parking_gate_way.Commands.{
  data_led, hciext_setlocalsupportedfeatures, hciext_setlocalsupportedfeatures_status,
  gatt_write_value, notify_data,
}

-- A command of the HCI: type, opcode with its low byte first, length of the parameters, parameters.
abbrev pub command : ℕ → Bytes → Bytes
command opcode params =
    pkt_command ∷ lsbyteof16bit opcode ∷ msbyteof16bit opcode ∷ length params ∷ params

+_five : (n : ℕ) → 5 + n ≡ suc (suc (suc (suc (suc n))))
+_five n = omega arith

+_four : (n : ℕ) → 4 + n ≡ suc (suc (suc (suc n)))
+_four n = omega arith

-- A notification of a forwarded message of 3 to 94 bytes is a well-formed command that carries
-- the bytes behind the message's three-byte head, for attribute handle 7 of connection 0,
-- whatever connection is asked for.
pub notify_data-command :
    (buffer : Memory) (size idz : ℕ)
    → 3 ≤ size
    → size ≤ 94
    → notify_data buffer size idz
      ≡ ok (command 0xFD9B (0x00 ∷ 0x00 ∷ 0x00 ∷ 0x07 ∷ 0x00 ∷ cells buffer 3 (size - 3)))
unfolding notify_data
notify_data-command buffer size idz lo hi =
    let fits : ltb 100 (9 + (size - 3)) ≡ false = ground arith in
    let counted : u8 (size + 256 - 3 + 5) ≡ 5 + length (cells buffer 3 (size - 3)) =
      omega (arith, length-cells buffer 3 (size - 3)) in
    rw (fits, counted) (rw (+_five (length (cells buffer 3 (size - 3)))))

-- Messages of 95 bytes and more, which a queue carries up to 100, overrun the packet buffer.
pub notify_data_too_long :
    (buffer : Memory) (size idz : ℕ)
    → 95 ≤ size
    → notify_data buffer size idz ≡ fault Fault.buffer_overflow
unfolding notify_data
notify_data_too_long buffer size idz h =
    let over : ltb 100 (9 + (size - 3)) ≡ true = ground arith in rw over

-- A write of a forwarded message of 3 to 95 bytes is a well-formed command for attribute handle 3
-- of connection `idz`.
pub gatt_write_value-command :
    (buffer : Memory) (size idz : ℕ)
    → 3 ≤ size
    → size ≤ 95
    → gatt_write_value buffer size idz
      ≡ ok (command 0xFD92 (u8 idz ∷ 0x00 ∷ 0x03 ∷ 0x00 ∷ cells buffer 3 (size - 3)))
unfolding gatt_write_value
gatt_write_value-command buffer size idz lo hi =
    let fits : ltb 100 (8 + (size - 3)) ≡ false = ground arith in
    let counted : u8 (size + 256 - 3 + 4) ≡ 4 + length (cells buffer 3 (size - 3)) =
      omega (arith, length-cells buffer 3 (size - 3)) in
    rw (fits, counted) (rw (+_four (length (cells buffer 3 (size - 3)))))

-- The command that sets the supported features reports failure exactly when all 12 of its bytes
-- were written, or any number but 4.
pub supported_features_status :
    (written : ℕ)
    → hciext_setlocalsupportedfeatures_status written ≡ (
        if written == length hciext_setlocalsupportedfeatures
        then minus_one
        else if written == 4
        then 0
        else minus_one)
unfolding hciext_setlocalsupportedfeatures_status hciext_setlocalsupportedfeatures
supported_features_status written = ground arith

-- The LED packet is a command of the HCI only if the uninitialised index that it is stored from
-- happens to be 0.
pub data_led-command :
    (idx op : ℕ) (params : Bytes) → data_led idx ≡ ok (command op params) → idx ≡ 0
unfolding data_led
data_led-command zero op params h = refl
data_led-command (suc n) op params h = ground arith
