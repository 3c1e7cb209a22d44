-- ===== src/Forward/Stale.antt =====
-- The statuses that `Forward_MSG_Queue_Thread` of BLE_Scanner/src/UartCmdRxThread.c leaves on its queue.
use ble_parking_gate_way.Prelude.{
  ℕ, suc, ◌+◌, ◌≤◌, ◌≡◌, ◌∙◌, ap, true, [], ◌∷◌, ◌++◌, append_assoc, some, Bytes, Memory, memcpy,
  length, ltb, arith,
}
use ble_parking_gate_way.Connections.Count.{Devices, max_num_peripherals, tally}
use ble_parking_gate_way.Pipe.Relay.{forwarded}
use ble_parking_gate_way.Forward.{Sender, Replies, Outcome, and_then, forward_msg}
use ble_parking_gate_way.Forward.Retry.{progress}
use ble_parking_gate_way.Forward.Broadcast.{
  notification_of, write_of, forward_write, successes, forward_cloud,
}

-- A message of the cloud.
abbrev pub cloud_message : Bytes → Bytes
cloud_message value = 0xFF ∷ 0x00 ∷ length value ∷ value

module _ (devices : Devices) (status : ℕ → ℕ) (slaves : ℕ) (m m' : Memory) where
  -- A write of the peer while no peer is counted, and then a message of the cloud.
  abbrev pub write_then_cloud : Bytes → Bytes → Replies → Sender → Outcome
  write_then_cloud value value' replies s =
      and_then (forward_msg status 0 (memcpy m (forwarded 0x01 value)) (length value + 3) replies s)
        (λ rest t.
          forward_msg (λ idz. (devices idz).status) (suc slaves) (memcpy m' (cloud_message value'))
            (length value' + 3) rest t)

  -- The two commands of a write are not waited for. So when a message of the cloud comes next and two
  -- devices are connected by then, the two successes that answer the write are taken for the answers
  -- to its two notifications: each is written once, and the thread is done, though neither has been
  -- answered. The values have at most 91 bytes.
  pub stale_statuses :
      (value value' part part' : Bytes) (s : Sender)
      → length value ≤ 91
      → length value' ≤ 91
      → tally max_num_peripherals 0 devices ≡ 2
      → progress (write_then_cloud value value' (successes (part ∷ part' ∷ [])) s)
        ≡ some (
          true,
          s.written
              ++ notification_of value
                ∷ write_of value
                ∷ notification_of value'
                ∷ notification_of value'
                ∷ [],
        )
  stale_statuses value value' part part' s fits fits' two =
      let some_slave : ltb 0 (suc slaves) ≡ true = ground arith in
      let parts = part ∷ part' ∷ [] in
      ap
        (λ o. progress (
          and_then o (λ rest t.
            forward_msg (λ idz. (devices idz).status) (suc slaves)
              (memcpy m' (cloud_message value')) (length value' + 3) rest t)))
        (forward_write status value m (successes parts) s fits)
      ∙ forward_cloud devices (suc slaves) 0x00 value' m' parts _ fits' two
      ∙ rw some_slave (simp append_assoc)
