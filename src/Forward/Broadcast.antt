-- ===== src/Forward/Broadcast.antt =====
-- Which packets `Forward_MSG_Queue_Thread` of BLE_Scanner/src/UartCmdRxThread.c writes for a
-- message: the peer's messages and those of the cloud.
use ble_parking_gate_way.Prelude.{
  ℕ, zero, suc, ◌+◌, ◌-◌, ◌≤◌, ◌≡◌, refl, ◌∙◌, ap, sym, Bool, true, false, List, [], ◌∷◌, ◌++◌,
  some, Bytes, Memory, memcpy, cells, cells-memcpy, replicate, append_replicate, length, append-nil,
  ltb, ◌==◌, if◌then◌else◌, arith, ok, Bool-cases, inl, inr,
}
use ble_parking_gate_way.Drivers.{sys_mq_recv}
use ble_parking_gate_way.Connections.Count.{Devices, max_num_peripherals, tally}
use ble_parking_gate_way.Commands.{notify_data, gatt_write_value}
use ble_parking_gate_way.Commands.WellFormed.{
  command, notify_data-command, gatt_write_value-command,
}
use ble_parking_gate_way.Pipe.Relay.{forwarded}
use ble_parking_gate_way.Forward.{
  Sender, Replies, Loop, cloud, counted, finished, wrote, retry, send_until, after_status, and_then,
  broadcast, forward_msg,
}
use ble_parking_gate_way.Forward.Retry.{status_reply, progress}

-- The command that notifies attribute 7 of connection 0.
abbrev pub notification_of : Bytes → Bytes
notification_of value = command 0xFD9B (0x00 ∷ 0x00 ∷ 0x00 ∷ 0x07 ∷ 0x00 ∷ value)

-- The command that writes attribute 3 of connection 0.
abbrev pub write_of : Bytes → Bytes
write_of value = command 0xFD92 (0x00 ∷ 0x00 ∷ 0x03 ∷ 0x00 ∷ value)

-- The thread does nothing with a message that is not from the cloud, not a ping and not of
-- direction 1: so the notifications that a peripheral sends, which `pipe_0000_Thread` forwards
-- with direction 0, end here.
pub forward_dropped :
    (status : ℕ → ℕ) (slave_count size : ℕ) (direction : ℕ) (value : Bytes) (m : Memory)
    (replies : Replies) (s : Sender)
    → (direction == 0x01) ≡ false
    → forward_msg status slave_count (memcpy m (forwarded direction value)) size replies s
      ≡ finished replies s
unfolding forward_msg
forward_dropped status slave_count size direction value m replies s other = rw other

message_size : (value : Bytes) → length value + 3 - 3 ≡ length value
message_size value = omega arith

-- A write of the peer, forwarded with direction 1, makes the thread write two commands and no
-- others while no peer is counted: a notification and an attribute write, each with exactly the
-- value that the peer wrote, if it has at most 91 bytes.
pub forward_write :
    (status : ℕ → ℕ) (value : Bytes) (m : Memory) (replies : Replies) (s : Sender)
    → length value ≤ 91
    → forward_msg status 0 (memcpy m (forwarded 0x01 value)) (length value + 3) replies s
      ≡ finished replies (wrote (write_of value) (wrote (notification_of value) s))
unfolding forward_msg
forward_write status value m replies s fits =
    let buffer = memcpy m (forwarded 0x01 value) in
    let front = 0x00 ∷ 0x01 ∷ length value ∷ [] in
    let same : cells buffer 3 (length value + 3 - 3) ≡ value =
      ap (cells buffer 3) (message_size value) ∙ cells-memcpy front value m in
    let note : notify_data buffer (length value + 3) 0 ≡ ok (notification_of value) =
      notify_data-command buffer (length value + 3) 0 (omega arith) (omega arith)
      ∙ ap (λ v. ok (notification_of v)) same in
    let write : gatt_write_value buffer (length value + 3) 0 ≡ ok (write_of value) =
      gatt_write_value-command buffer (length value + 3) 0 (omega arith) (omega arith)
      ∙ ap (λ v. ok (write_of v)) same in
    rw (note, write)

abbrev pub successes : List Bytes → Replies
successes [] = []
successes (part ∷ parts) = status_reply 0x00 part ∷ successes parts

-- The thread after it wrote `pac` and got a success.
abbrev acknowledged : Bytes → Bytes → Sender → Sender
acknowledged pac part s =
    let r = sys_mq_recv (status_reply 0x00 part) s.buffer_rx s.size_rx in
    record (wrote pac s) { buffer_rx = r.buf; size_rx = r.size }

send_success :
    (loop : Loop) (pac part : Bytes) (replies : Replies) (s : Sender)
    → send_until loop (ok pac) (status_reply 0x00 part ∷ replies) s
      ≡ finished replies (acknowledged pac part s)
unfolding send_until retry after_status sys_mq_recv
send_success cloud pac part replies s = refl
send_success counted pac part replies s = refl

module _ (loop : Loop) (serves : ℕ → Bool) (buffer : Memory) (size n idz : ℕ) where
  broadcast_serves :
      (pac part : Bytes) (replies : Replies) (s : Sender)
      → serves idz ≡ true
      → notify_data buffer size idz ≡ ok pac
      → broadcast loop serves buffer size (suc n) idz (status_reply 0x00 part ∷ replies) s
        ≡ broadcast loop serves buffer size n (idz + 1) replies (acknowledged pac part s)
  unfolding broadcast
  broadcast_serves pac part replies s h note =
      rw (broadcast, h, note)
        (ap (λ o. and_then o (broadcast loop serves buffer size n (idz + 1)))
          (send_success loop pac part replies s))

  broadcast_skips :
      (replies : Replies) (s : Sender)
      → serves idz ≡ false
      → broadcast loop serves buffer size (suc n) idz replies s
        ≡ broadcast loop serves buffer size n (idz + 1) replies s
  unfolding broadcast
  broadcast_skips replies s h = rw (broadcast, h)

abbrev pub is_served : Devices → ℕ → Bool
is_served devices idz = (devices idz).status == 1

tally_serves :
    (n idz : ℕ) (devices : Devices) (b : Bool)
    → is_served devices idz ≡ b
    → tally (suc n) idz devices ≡ (if b then 1 else 0) + tally n (idz + 1) devices
unfolding tally
tally_serves n idz devices b h = let e : idz + 1 ≡ suc idz = omega arith in rw (h, e)

module _ (devices : Devices) (buffer : Memory) (size : ℕ) (pac : Bytes)
    (note : (idz : ℕ) → notify_data buffer size idz ≡ ok pac) where
  broadcast_success :
      (n idz : ℕ) (parts : List Bytes) (s : Sender)
      → tally n idz devices ≡ length parts
      → progress (broadcast cloud (is_served devices) buffer size n idz (successes parts) s)
        ≡ some (true, s.written ++ replicate (length parts) pac)
  unfolding broadcast tally
  broadcast_success zero idz [] s count = ap (λ w. some (true, w)) (sym (append-nil s.written))
  broadcast_success zero idz (part ∷ parts) s count = ground arith
  broadcast_success (suc n) idz [] s count = elim (Bool-cases (is_served devices idz)) [
    | inl h ↦ ground (arith, tally_serves n idz devices true h)
    | inr h ↦
        ap progress (broadcast_skips cloud (is_served devices) buffer size n idz [] s h)
        ∙ broadcast_success n (idz + 1) [] s
            (omega (arith, tally_serves n idz devices false h, count))
  ]
  broadcast_success (suc n) idz (part ∷ parts) s count = elim (Bool-cases (is_served devices idz)) [
    | inl h ↦
        let rest : tally n (idz + 1) devices ≡ length parts =
          omega (arith, tally_serves n idz devices true h, count) in
        ap progress (
          broadcast_serves cloud (is_served devices) buffer size n idz pac part (successes parts) s
            h (note idz))
        ∙ (broadcast_success n (idz + 1) parts (acknowledged pac part s) rest
            ∙ ap (λ w. some (true, w)) (append_replicate s.written pac (length parts)))
    | inr h ↦
        ap progress (
          broadcast_skips cloud (is_served devices) buffer size n idz (successes (part ∷ parts)) s
            h)
        ∙ broadcast_success n (idz + 1) (part ∷ parts) s
            (omega (arith, tally_serves n idz devices false h, count))
  ]

-- A message of the cloud with a value of at most 91 bytes is written once for each connected
-- device, when as many replies come and all say success: but each copy is addressed to
-- connection 0. While `Slave_Count` is 0, nothing is written.
pub forward_cloud :
    (devices : Devices) (slave_count direction : ℕ) (value : Bytes) (m : Memory)
    (parts : List Bytes) (s : Sender)
    → length value ≤ 91
    → tally max_num_peripherals 0 devices ≡ length parts
    → progress (
        forward_msg
          (λ idz. (devices idz).status)
          slave_count
          (memcpy m (0xFF ∷ direction ∷ length value ∷ value))
          (length value + 3)
          (successes parts)
          s)
      ≡ some (
        true,
        s.written
            ++ (if ltb 0 slave_count then replicate (length parts) (notification_of value) else []),
      )
unfolding forward_msg
forward_cloud devices zero direction value m parts s fits count =
    ap (λ w. some (true, w)) (sym (append-nil s.written))
forward_cloud devices (suc slaves) direction value m parts s fits count =
    let buffer = memcpy m (0xFF ∷ direction ∷ length value ∷ value) in
    let front = 0xFF ∷ direction ∷ length value ∷ [] in
    let same : cells buffer 3 (length value + 3 - 3) ≡ value =
      ap (cells buffer 3) (message_size value) ∙ cells-memcpy front value m in
    let note = λ (idz : ℕ).
      notify_data-command buffer (length value + 3) idz (omega arith) (omega arith)
      ∙ ap (λ v. ok (notification_of v)) same in
    let some_slave : ltb 0 (suc slaves) ≡ true = ground arith in
    rw some_slave (
      broadcast_success devices buffer (length value + 3) (notification_of value) note
        max_num_peripherals 0 parts s count)
