-- ===== src/Central/Connect.antt =====
-- A connection of `CentralModeThread` in BLE_Scanner/src/CentralModeThread.c from the matching
-- advertisement to the bonding.
use ble_parking_gate_way.Prelude.{
  ℕ, ◌≡◌, refl, ◌∙◌, ap, true, List, [], ◌∷◌, ◌++◌, some, Bytes, cells, append_assoc, arith,
}
use ble_parking_gate_way.Drivers.{sys_mq_recv}
use ble_parking_gate_way.Commands
use ble_parking_gate_way.Central.State.{CentralState, Progress, Central, Inputs}
use ble_parking_gate_way.Central.Calls.{
  write, receive, device_scan_data, device_scan_cancel_req, device_scan_cancel_rsp,
  device_establish_link_req,
}
use ble_parking_gate_way.Central.Loop.{go_to, after_scan_data, turn, step, run}
use ble_parking_gate_way.Central.Reach.{step-turn}
use ble_parking_gate_way.Central.Scan.{is_match}
use ble_parking_gate_way.Central.Link.{
  matched_mac, is_established, establish_bytes, establish_matched, bonding, run_established,
}

-- A vendor event with its low and high byte and what follows it.
abbrev pub vendor_event : ℕ → ℕ → ℕ → Bytes → Bytes
vendor_event count lo hi rest = 0x04 ∷ 0xFF ∷ count ∷ lo ∷ hi ∷ rest

-- The thread after a match.
abbrev pub matched : Central → Inputs → Central
matched c i =
    let r = receive c i in record r { mac = matched_mac r; state = CentralState.device_scan_cancel }

pub step-matched :
    (c : Central) (i : Inputs)
    → c.progress ≡ Progress.running
    → c.state ≡ CentralState.device_scan_data
    → is_match (receive c i) ≡ true
    → step c i ≡ matched c i
unfolding turn device_scan_data after_scan_data
step-matched c i r s h = step-turn c i r s ∙ ground arith

pub step_cancel :
    (c : Central) (i : Inputs)
    → c.progress ≡ Progress.running
    → c.state ≡ CentralState.device_scan_cancel
    → i.write_result ≡ 4
    → step c i ≡ go_to CentralState.device_scan_cancel_rsp (write Commands.device_scan_cancel_req c)
unfolding turn device_scan_cancel_req Commands.device_scan_cancel_req
step_cancel c i r s h = step-turn c i r s ∙ ground arith

step_cancelled :
    (c : Central) (i : Inputs) (count : ℕ) (rest : Bytes)
    → c.progress ≡ Progress.running
    → c.state ≡ CentralState.device_scan_cancel_rsp
    → i.message ≡ some (vendor_event count 0x01 0x06 (0x30 ∷ rest))
    → step c i ≡ go_to CentralState.device_establish_link_req (receive c i)
unfolding turn device_scan_cancel_rsp receive sys_mq_recv
step_cancelled c i count rest r s h = step-turn c i r s ∙ rw h

pub step_connect :
    (c : Central) (i : Inputs)
    → c.progress ≡ Progress.running
    → c.state ≡ CentralState.device_establish_link_req
    → i.write_result ≡ 13
    → step c i
      ≡ go_to CentralState.device_establish_link_rsp
          (write (Commands.device_establish_link_req c.mac) c)
unfolding turn device_establish_link_req Commands.device_establish_link_req
step_connect c i r s h = step-turn c i r s ∙ ground arith

told_established :
    (c : Central) (i : Inputs) (count : ℕ) (rest : Bytes)
    → i.message ≡ some (vendor_event count 0x05 0x06 rest)
    → is_established (receive c i).buffer ≡ true
unfolding receive sys_mq_recv
told_established c i count rest h = rw h

append_two :
    (w rest : List Bytes) (a b : Bytes) → ((w ++ a ∷ []) ++ b ∷ []) ++ rest ≡ w ++ a ∷ b ∷ rest
append_two w rest a b = simp append_assoc

module _ (c : Central) (match cancel cancelled connect established : Inputs) (is : List Inputs)
    (count count' : ℕ) (rest rest' : Bytes) where
  -- From the scan on, when the packets come as they should and each command is written in full:
  -- a matching advertisement, the end of the scan with status 0x30, and the established link. The
  -- thread then cancels the scan, asks for a connection to the address of the advertisement,
  -- bonds, and does nothing more, and it writes exactly these commands. The LED packet's
  -- index is taken to start from 0.
  pub run-linked :
      c.progress ≡ Progress.running
      → c.state ≡ CentralState.device_scan_data
      → is_match (receive c match) ≡ true
      → cancel.write_result ≡ 4
      → cancelled.message ≡ some (vendor_event count 0x01 0x06 (0x30 ∷ rest))
      → connect.write_result ≡ 13
      → established.message ≡ some (vendor_event count' 0x05 0x06 rest')
      → established.led_idx ≡ 0
      → (let end = run c (match ∷ cancel ∷ cancelled ∷ connect ∷ established ∷ is) in
          (end.progress ≡ Progress.spinning)
          × (end.written
              ≡ c.written
                ++ Commands.device_scan_cancel_req
                  ∷ establish_bytes (cells (receive c match).buffer 8 6)
                  ∷ bonding))
  unfolding run receive
  run-linked r s matches sent ended asked told zeroed =
      let d0 = matched c match in
      let d1 =
        go_to CentralState.device_scan_cancel_rsp (write Commands.device_scan_cancel_req d0) in
      let d2 = go_to CentralState.device_establish_link_req (receive d1 cancelled) in
      let pac = Commands.device_establish_link_req (matched_mac (receive c match)) in
      let d3 = go_to CentralState.device_establish_link_rsp (write pac d2) in
      let ways : run c (match ∷ cancel ∷ cancelled ∷ connect ∷ established ∷ is)
          ≡ run d3 (established ∷ is) =
        ap (λ d. run d (cancel ∷ cancelled ∷ connect ∷ established ∷ is))
          (step-matched c match r s matches)
        ∙ ap (λ d. run d (cancelled ∷ connect ∷ established ∷ is))
            (step_cancel d0 cancel r refl sent)
        ∙ ap (λ d. run d (connect ∷ established ∷ is))
            (step_cancelled d1 cancelled count rest r refl ended)
        ∙ ap (λ d. run d (established ∷ is)) (step_connect d2 connect r refl asked) in
      let final =
        ways
        ∙ run_established d3 established is r refl
            (told_established d3 established count' rest' told) zeroed in
      let cancel_req = Commands.device_scan_cancel_req in
      (
        ap (λ (d : Central). d.progress) final,
        ap (λ (d : Central). d.written) final
            ∙ append_two c.written bonding cancel_req pac
            ∙ ap (λ b. c.written ++ cancel_req ∷ b ∷ bonding) (establish_matched (receive c match)),
      )
