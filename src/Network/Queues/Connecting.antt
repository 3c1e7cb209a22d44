-- ===== src/Network/Queues/Connecting.antt =====
-- The turns of `CentralModeThread` in BLE_Scanner/src/CentralModeThread.c on the way to a link, over
-- queues that hold messages.
use ble_parking_gate_way.Prelude.{
  ◌≡◌, ◌≤◌, refl, ◌∙◌, ap, Bool, true, List, [], ◌∷◌, ◌++◌, none, some, Bytes, Memory, memcpy,
  length, drop, cells,
}
use ble_parking_gate_way.Drivers.{Queue, sys_mq_recv}
use ble_parking_gate_way.Connections.Count.{tally}
use ble_parking_gate_way.Commands
use ble_parking_gate_way.Central.State.{CentralState, Progress, Central}
use ble_parking_gate_way.Central.Calls.{write, receive}
use ble_parking_gate_way.Central.Loop
use ble_parking_gate_way.Central.Loop.{go_to, turn}
use ble_parking_gate_way.Central.Reach.{step-turn}
use ble_parking_gate_way.Central.Scan.{step-scan_req}
use ble_parking_gate_way.Central.Link.{
  matched_mac, is_established, establish_bytes, establish_matched, bonding, run_established,
}
use ble_parking_gate_way.Central.Connect.{matched, step-matched, step_cancel, step_connect}
use ble_parking_gate_way.Central.Wait.{
  advertisement, scan_end, link, is_advertised, is_scan_end, step_scan_end,
}
use ble_parking_gate_way.Network.Queues.{Queued}
use ble_parking_gate_way.Network.Queues.Turns.{
  At, IsBetween, IsKept, input, taken_by, asks_awaited, Reaches, takes, alone,
}

-- A message shows the same to a test whatever the buffer held before.
abbrev pub Shows : (Memory → Bool) → Bool → Bytes → Type 0
Shows test answer bytes = (b : Memory) → test (memcpy b bytes) ≡ answer

module _ {R : Queued → Type 0} (kept : IsKept R) where
  -- `CentralState_new` is `init` before the loop, and no message is taken by its turn.
  pub scan_begins :
      {waiting : List Bytes} {s : Queued}
      → R s
      → s.net.central ≡ Loop.start
      → s.pending Queue.command_resp ≡ waiting
      → IsBetween s
      → Reaches kept (At CentralState.device_scan_req Loop.start.mac Loop.start.written waiting)
  unfolding Loop.start turn
  scan_begins {s} r begins waits between =
      let i = input s 0 0 none in
      let same = ap (λ c. Loop.step c i) begins ∙ step-turn Loop.start i refl refl in
      alone kept i (go_to CentralState.device_scan_req Loop.start) refl refl waits same
        (record { running = refl; there = refl; aimed = refl; so_far = refl }) between r

  module _ {mac : Memory} {written rest : List Bytes} {s : Queued} (r : R s) where
    pub scan_answered :
        (bytes : Bytes)
        → At CentralState.device_scan_req mac written (bytes ∷ rest) s
        → tally 4 0 s.net.gateway.devices ≤ 3
        → Reaches kept
            (At CentralState.device_scan_data mac (written ++ Commands.device_scan_req ∷ []) rest)
    unfolding receive sys_mq_recv
    scan_answered bytes at few =
        let i = input s (length Commands.device_scan_req) 0 (some bytes) in
        let c = s.net.central in
        let (same, asked) = step-scan_req c i at.central.running at.central.there few refl refl in
        takes kept i
          (go_to CentralState.device_scan_data (receive (write Commands.device_scan_req c) i)) asked
          refl refl at.waits same
          (record {
            running = at.central.running;
            there = refl;
            aimed = at.central.aimed;
            so_far = ap (λ w. w ++ Commands.device_scan_req ∷ []) at.central.so_far;
          })
          at.between r

    pub matches :
        (bytes address : Bytes)
        → Shows is_advertised true bytes
        → ((b : Memory) → cells (memcpy b bytes) 8 6 ≡ address)
        → At CentralState.device_scan_data mac written (bytes ∷ rest) s
        → (mac' : Memory) × (Commands.device_establish_link_req mac' ≡ establish_bytes address)
          × Reaches kept (At CentralState.device_scan_cancel mac' written rest)
    unfolding receive sys_mq_recv
    matches bytes address shows from at =
        let i = input s 0 3 (some bytes) in
        let c = s.net.central in
        let mac' = matched_mac (receive c i) in
        let same = step-matched c i at.central.running at.central.there (shows c.buffer) in
        (
          mac',
          establish_matched (receive c i) ∙ ap establish_bytes (from c.buffer),
          takes kept i (matched c i)
              (asks_awaited c i advertisement at.central.running at.central.there) refl refl
              at.waits same
              (record {
                running = at.central.running;
                there = refl;
                aimed = refl;
                so_far = at.central.so_far;
              })
              at.between r,
        )

    pub cancels :
        At CentralState.device_scan_cancel mac written rest s
        → Reaches kept (
            At CentralState.device_scan_cancel_rsp mac
              (written ++ Commands.device_scan_cancel_req ∷ [])
              rest)
    cancels at =
        let i = input s 4 3 none in
        let c = s.net.central in
        alone kept i
          (go_to CentralState.device_scan_cancel_rsp (write Commands.device_scan_cancel_req c)) refl
          refl at.waits (step_cancel c i at.central.running at.central.there refl)
          (record {
            running = at.central.running;
            there = refl;
            aimed = at.central.aimed;
            so_far = ap (λ w. w ++ Commands.device_scan_cancel_req ∷ []) at.central.so_far;
          })
          at.between r

    pub scan_ends :
        (bytes : Bytes)
        → Shows is_scan_end true bytes
        → At CentralState.device_scan_cancel_rsp mac written (bytes ∷ rest) s
        → Reaches kept (At CentralState.device_establish_link_req mac written rest)
    unfolding receive sys_mq_recv
    scan_ends bytes shows at =
        let i = input s 0 3 (some bytes) in
        let c = s.net.central in
        takes kept i (go_to CentralState.device_establish_link_req (receive c i))
          (asks_awaited c i scan_end at.central.running at.central.there) refl refl at.waits
          (step_scan_end c i at.central.running at.central.there (shows c.buffer))
          (record {
            running = at.central.running;
            there = refl;
            aimed = at.central.aimed;
            so_far = at.central.so_far;
          })
          at.between r

    pub connects :
        At CentralState.device_establish_link_req mac written rest s
        → Reaches kept (
            At CentralState.device_establish_link_rsp mac
              (written ++ Commands.device_establish_link_req mac ∷ [])
              rest)
    connects at =
        let i = input s 13 3 none in
        let c = s.net.central in
        alone kept i
          (go_to CentralState.device_establish_link_rsp
            (write (Commands.device_establish_link_req c.mac) c))
          refl refl at.waits (step_connect c i at.central.running at.central.there refl)
          (record {
            running = at.central.running;
            there = refl;
            aimed = at.central.aimed;
            so_far =
                ap (λ w. w ++ Commands.device_establish_link_req c.mac ∷ []) at.central.so_far
                ∙ ap (λ m. written ++ Commands.device_establish_link_req m ∷ []) at.central.aimed;
          })
          at.between r

    -- The last turn: the thread bonds and stops.
    pub bonds :
        (bytes : Bytes)
        → Shows is_established true bytes
        → At CentralState.device_establish_link_rsp mac written (bytes ∷ rest) s
        → (t : Queued) × R t
          × (t.net.central.progress ≡ Progress.spinning)
          × (t.net.central.written ≡ written ++ bonding)
          × (t.pending Queue.command_resp ≡ rest)
          × IsBetween t
    unfolding receive sys_mq_recv Loop.run
    bonds bytes shows at =
        let i = input s 0 3 (some bytes) in
        let c = s.net.central in
        let same =
          run_established c i [] at.central.running at.central.there (shows c.buffer) refl in
        (
          taken_by s i,
          kept.takes i (asks_awaited c i link at.central.running at.central.there) at.waits refl
              refl r,
          ap (λ (d : Central). d.progress) same,
          ap (λ (d : Central). d.written) same ∙ ap (λ w. w ++ bonding) at.central.so_far,
          ap (drop 1) at.waits,
          at.between,
        )
