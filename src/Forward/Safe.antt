-- ===== src/Forward/Safe.antt =====
-- `Forward_MSG_Queue_Thread` of BLE_Scanner/src/UartCmdRxThread.c on what `pipe_0000_Thread` sends it.
use ble_parking_gate_way.Prelude.{
  ℕ, zero, suc, ◌+◌, ◌-◌, ◌≤◌, ◌≡◌, refl, Bool, true, false, ◌&&◌, not, [], ◌∷◌, Bytes, Memory,
  memcpy, cells, length, length-cells, u8, u16, ltb, ◌==◌, if◌then◌else◌, ok, fault, Fault, Holds,
  arith, Bool-cases, inl, inr,
}
use ble_parking_gate_way.Drivers.{Message, sys_mq_send, sys_mq_recv}
use ble_parking_gate_way.Connections.Count.{max_num_peripherals}
use ble_parking_gate_way.Commands.{notify_data, gatt_write_value}
use ble_parking_gate_way.Pipe.{pipe_0000}
use ble_parking_gate_way.Forward.{
  Sender, Replies, Outcome, Loop, cloud, counted, finished, blocked, faulted, wrote, retry,
  retry_count, send_until, after_status, and_then, broadcast, forward_msg,
}

-- An outcome of the thread that is no fault.
pub data NoFault : Outcome → Type 0 where
  finishes : (replies : Replies) (s : Sender) → NoFault (finished replies s)
  blocks : (s : Sender) → NoFault (blocked s)

either : (b : Bool) (x y : Outcome) → NoFault x → NoFault y → NoFault (if b then x else y)
either true x y h k = h
either false x y h k = k

retry-NoFault :
    (loop : Loop) (pac : Bytes) (replies : Replies) (needed : ℕ) (s : Sender)
    → NoFault (retry loop pac replies needed s)
unfolding retry
retry-NoFault loop pac [] needed s = blocks _
retry-NoFault loop pac (reply ∷ replies) needed s =
    let r = sys_mq_recv reply s.buffer_rx s.size_rx in
    let s' = record (wrote pac s) { buffer_rx = r.buf; size_rx = r.size } in
    let needed' = if r.status == 0 then after_status loop (r.buf 5) needed else needed in
    either (ltb needed' retry_count) (retry loop pac replies needed' s') (finished replies s')
      (retry-NoFault loop pac replies needed' s') (finishes replies s')

and_then-NoFault :
    (o : Outcome) (k : Replies → Sender → Outcome)
    → NoFault o
    → ((replies : Replies) (s : Sender) → NoFault (k replies s))
    → NoFault (and_then o k)
and_then-NoFault (finished replies s) k h safe = safe replies s
and_then-NoFault (blocked s) k h safe = blocks s
and_then-NoFault (faulted e) k h safe = elim h [ ]

built :
    (long : Bool) (bytes : Bytes)
    → long ≡ false
    → (pac : Bytes) × ((if long then fault Fault.buffer_overflow else ok bytes) ≡ ok pac)
built true bytes h = ground arith
built false bytes h = (bytes, refl)

module _ (buffer : Memory) (size : ℕ) (fits : size ≤ 94) where
  note : (idz : ℕ) → (pac : Bytes) × (notify_data buffer size idz ≡ ok pac)
  unfolding notify_data
  note idz = let short : ltb 100 (9 + (size - 3)) ≡ false = ground arith in built _ _ short

  value : (idz : ℕ) → (pac : Bytes) × (gatt_write_value buffer size idz ≡ ok pac)
  unfolding gatt_write_value
  value idz = let short : ltb 100 (8 + (size - 3)) ≡ false = ground arith in built _ _ short

  send_until-NoFault :
      (loop : Loop) (idz : ℕ) (replies : Replies) (s : Sender)
      → NoFault (send_until loop (notify_data buffer size idz) replies s)
  unfolding send_until
  send_until-NoFault loop idz replies s =
      rw (note idz).1 (retry-NoFault loop (note idz).0 replies 0 s)

  broadcast-NoFault :
      (loop : Loop) (serves : ℕ → Bool) (rounds idz : ℕ) (replies : Replies) (s : Sender)
      → NoFault (broadcast loop serves buffer size rounds idz replies s)
  unfolding broadcast
  broadcast-NoFault loop serves zero idz replies s = finishes replies s
  broadcast-NoFault loop serves (suc rounds) idz replies s =
      let rest = broadcast-NoFault loop serves rounds (idz + 1) in
      elim (Bool-cases (serves idz)) [
        | inl h ↦
            rw (broadcast, h)
              (and_then-NoFault (send_until loop (notify_data buffer size idz) replies s) _
                (send_until-NoFault loop idz replies s) (λ r t. rest r t))
        | inr h ↦ rw (broadcast, h) (rest replies s)
      ]

  pub forward_msg-NoFault :
      (status : ℕ → ℕ) (slave_count : ℕ) (replies : Replies) (s : Sender)
      → NoFault (forward_msg status slave_count buffer size replies s)
  unfolding forward_msg
  forward_msg-NoFault status slave_count replies s =
      let is_up = λ (idz : ℕ). status idz == 1 in
      let is_other = λ (idz : ℕ). status idz == 1 && not (idz == buffer 0) in
      let s' = wrote (value 0).0 (wrote (note 0).0 s) in
      rw ((note 0).1, (value 0).1)
        (either (buffer 0 == 0xFF) _ _
          (either (ltb 0 slave_count) _ _
            (broadcast-NoFault cloud is_up max_num_peripherals 0 replies s) (finishes replies s))
          (either (buffer 0 == 0xEE) _ _ (send_until-NoFault counted (buffer 1) replies s) (
            either (buffer 1 == 0x01) _ _
              (either (ltb 0 slave_count) _ _
                (broadcast-NoFault counted is_other max_num_peripherals 0 replies s')
                (finishes replies s'))
              (finishes replies s))))

-- What the pipe sends has at most 94 bytes.
pub pipe_0000-Holds :
    (buff forward_data_buff : Memory)
    → Holds (λ (m : Message). length m.1 ≤ 94) (pipe_0000 buff forward_data_buff)
unfolding pipe_0000 sys_mq_send
pipe_0000-Holds buff forward_data_buff = ground (
  arith,
  length-cells
      (memcpy forward_data_buff (0 ∷ 1 ∷ u8 (buff 8 + 256 - 4) ∷ cells buff 13 (buff 8 - 4))) 0
      (u16 (u16 (buff 8 + 65536 - 4 + 3))),
  length-cells
      (memcpy forward_data_buff (0 ∷ 0 ∷ u8 (buff 8 + 256 - 2) ∷ cells buff 11 (buff 8 - 2))) 0
      (u16 (u16 (buff 8 + 65536 - 2 + 3))),
)
