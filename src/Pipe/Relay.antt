-- ===== src/Pipe/Relay.antt =====
-- What `pipe_0000_Thread` of BLE_Scanner/src/UartCmdRxThread.c makes of a packet.
use ble_parking_gate_way.Prelude.{
  ℕ, ◌+◌, ◌-◌, ◌≤◌, ◌≡◌, ◌⊎◌, ap, some, false, [], ◌∷◌, ◌++◌, Bytes, Memory, memcpy, cells, length,
  cells-memcpy, u8, u16, ltb, ok, fault, Fault, arith, if◌then◌else◌,
}
use ble_parking_gate_way.Hci.{make16ofxy}
use ble_parking_gate_way.Hci.Event
use ble_parking_gate_way.Drivers.{Queue, mtext_size, sys_mq_send}
use ble_parking_gate_way.Pipe.{pipe_0000}

-- A packet of the peer on connection 0: an event of two bytes, a status, the length of the
-- attribute protocol's part, and that part.
abbrev pub peer_packet : ℕ → ℕ → ℕ → ℕ → Bytes → Bytes
peer_packet count event status len part =
    0x04 ∷ 0xFF ∷ count ∷ event ∷ 0x05 ∷ status ∷ 0x00 ∷ 0x00 ∷ len ∷ part

-- A write of `value`: two bytes of head and the attribute handle stand before it.
abbrev pub write_packet : ℕ → ℕ → ℕ → ℕ → ℕ → ℕ → Bytes → Bytes
write_packet count status signature command attr_lo attr_hi value =
    peer_packet count 0x12 status (length value + 4)
      (signature ∷ command ∷ attr_lo ∷ attr_hi ∷ value)

-- A notification of `value`: the attribute handle stands before it.
abbrev pub notification_packet : ℕ → ℕ → ℕ → ℕ → Bytes → Bytes
notification_packet count status attr_lo attr_hi value =
    peer_packet count 0x1B status (length value + 2) (attr_lo ∷ attr_hi ∷ value)

-- A forwarded message: connection, direction, length and value.
abbrev pub forwarded : ℕ → Bytes → Bytes
forwarded direction value = 0x00 ∷ direction ∷ length value ∷ value

send_all :
    (bytes : Bytes) (m : Memory) (size : ℕ)
    → u16 size ≡ length bytes
    → length bytes ≤ mtext_size
    → sys_mq_send (some Queue.peer_device) (memcpy m bytes) size ≡ ok (Queue.peer_device, bytes)
unfolding sys_mq_send
send_all bytes m size e fits =
    let short : ltb mtext_size (u16 size) ≡ false = ground arith in
    rw short (rw e (ap (λ copy. ok (Queue.peer_device, copy)) (cells-memcpy [] bytes m)))

module _ (count status attr_lo attr_hi : ℕ) (value : Bytes) (buff forward_data_buff : Memory) where
  -- A write on connection 0 is forwarded with direction 1 and exactly the value written, if that
  -- has at most 87 bytes.
  pub pipe_0000-write :
      (signature command : ℕ)
      → length value ≤ 87
      → pipe_0000
          (memcpy buff (write_packet count status signature command attr_lo attr_hi value))
          forward_data_buff
        ≡ ok (Queue.peer_device, forwarded 0x01 value)
  unfolding pipe_0000
  pipe_0000-write signature command fits =
      let rounds : length value + 4 - 4 ≡ length value = omega arith in
      let near : ltb 100 (length value + 13) ≡ false = ground arith in
      let byte : u8 (length value + 4 + 256 - 4) ≡ length value = omega arith in
      let front =
        0x04
        ∷ 0xFF
        ∷ count
        ∷ 0x12
        ∷ 0x05
        ∷ status
        ∷ 0x00
        ∷ 0x00
        ∷ (length value + 4)
        ∷ signature
        ∷ command
        ∷ attr_lo
        ∷ attr_hi
        ∷ [] in
      let same : cells (memcpy buff (front ++ value)) 13 (length value) ≡ value =
        cells-memcpy front value buff in
      rw (rounds, near, byte, same)
        (send_all (forwarded 0x01 value) forward_data_buff _ (omega arith) (omega arith))

  -- A notification on connection 0 is forwarded with direction 0 and exactly the value notified,
  -- if that has at most 89 bytes.
  pub pipe_0000-notification :
      length value ≤ 89
      → pipe_0000
          (memcpy buff (notification_packet count status attr_lo attr_hi value))
          forward_data_buff
        ≡ ok (Queue.peer_device, forwarded 0x00 value)
  unfolding pipe_0000
  pipe_0000-notification fits =
      let rounds : length value + 2 - 2 ≡ length value = omega arith in
      let near : ltb 100 (length value + 11) ≡ false = ground arith in
      let byte : u8 (length value + 2 + 256 - 2) ≡ length value = omega arith in
      let front =
        0x04
        ∷ 0xFF
        ∷ count
        ∷ 0x1B
        ∷ 0x05
        ∷ status
        ∷ 0x00
        ∷ 0x00
        ∷ (length value + 2)
        ∷ attr_lo
        ∷ attr_hi
        ∷ [] in
      let same : cells (memcpy buff (front ++ value)) 11 (length value) ≡ value =
        cells-memcpy front value buff in
      rw (rounds, near, byte, same)
        (send_all (forwarded 0x00 value) forward_data_buff _ (omega arith) (omega arith))

-- A write that announces 92 bytes or more makes the thread read behind its array of 100 bytes; one
-- that announces none makes it send 65535 bytes out of that array.
pub pipe_0000_bad_length :
    (buff forward_data_buff : Memory)
    → make16ofxy (buff 4) (buff 3) ≡ Event.att_write_request
    → (92 ≤ buff 8) ⊎ (buff 8 ≡ 0)
    → pipe_0000 buff forward_data_buff
      ≡ fault (if ltb 0 (buff 8) then Fault.out_of_bounds else Fault.buffer_overflow)
unfolding pipe_0000 sys_mq_send
pipe_0000_bad_length buff forward_data_buff e h = ground arith
