-- ===== src/Central/Scan.antt =====
-- The scanning half of `CentralModeThread` in BLE_Scanner/src/CentralModeThread.c.
use ble_parking_gate_way.Prelude.{
  ℕ, ◌≤◌, ◌≡◌, sym, ◌∙◌, ap, Bool, true, false, ◌&&◌, [], ◌∷◌, ◌++◌, Option, Bytes, length, arith,
  ltb, ◌==◌, if◌then◌else◌, u8,
}
use ble_parking_gate_way.Hci.Event
use ble_parking_gate_way.Connections.Count.{device_conn_count, tally, device_conn_count-tally}
use ble_parking_gate_way.Commands
use ble_parking_gate_way.Central.State.{CentralState, Progress, Central, Inputs}
use ble_parking_gate_way.Central.Calls.{
  write, device_scan_rsp, receive, event_of, is_vendor_event, is_wanted, device_scan_req,
  device_scan_data,
}
use ble_parking_gate_way.Central.Loop.{go_to, after_scan_data, turn, step}
use ble_parking_gate_way.Central.Asks.{asks}
use ble_parking_gate_way.Central.Reach.{step-turn}

-- The state that the loop chooses where a call gave no value: by the low byte left behind.
abbrev pub after_scan_req : ℕ → CentralState
after_scan_req status = if status == 0 then CentralState.device_scan_data else CentralState.init

-- With four of the first four links connected, a turn of the scan request writes nothing and
-- reads nothing: it only moves the state, by a value that the function does not return.
pub scan_req_full :
    (c : Central) (i : Inputs)
    → c.progress ≡ Progress.running
    → c.state ≡ CentralState.device_scan_req
    → tally 4 0 i.devices ≡ 4
    → step c i ≡ go_to (after_scan_req (u8 i.residue)) c
unfolding turn device_scan_req
scan_req_full c i r s full =
    let none_free : ltb (device_conn_count i.devices) 4 ≡ false =
      ground (arith, device_conn_count-tally i.devices) in
    step-turn c i r s ∙ rw none_free (ground arith)

-- With at most three of the first four links connected, a turn in the state of the scan request
-- writes exactly one scan request, whatever comes of it.
pub scan_req_free :
    (c : Central) (i : Inputs)
    → c.progress ≡ Progress.running
    → c.state ≡ CentralState.device_scan_req
    → tally 4 0 i.devices ≤ 3
    → (step c i).written ≡ c.written ++ Commands.device_scan_req ∷ []
unfolding turn device_scan_req receive
scan_req_free c i r s free =
    let some_free : ltb (device_conn_count i.devices) 4 ≡ true =
      ground (arith, device_conn_count-tally i.devices) in
    ap (λ (d : Central). d.written) (step-turn c i r s) ∙ rw some_free (ground arith)

-- With at most three of the first four links connected and the request written in full, the turn takes
-- a message, whatever it is; the state that follows is right where the value that `Device_Scan_Rsp` leaves
-- behind reads as 0.
pub step-scan_req :
    (c : Central) (i : Inputs)
    → c.progress ≡ Progress.running
    → c.state ≡ CentralState.device_scan_req
    → tally 4 0 i.devices ≤ 3
    → i.write_result ≡ length Commands.device_scan_req
    → u8 i.residue ≡ 0
    → (step c i
        ≡ go_to CentralState.device_scan_data (receive (write Commands.device_scan_req c) i))
      × (asks c i ≡ true)
unfolding turn device_scan_req device_scan_rsp asks
step-scan_req c i r s free w z =
    let some_free : ltb (device_conn_count i.devices) 4 ≡ true =
      ground (arith, device_conn_count-tally i.devices) in
    (step-turn c i r s ∙ rw some_free (ground arith), rw (r, s, some_free) (ground arith))

-- The state after a scan request does not depend on the answer that the queue yields, nor on
-- whether there is one: `Device_Scan_Rsp` computes a verdict and does not return it.
pub scan_response_ignored :
    (c : Central) (i : Inputs) (answer : Option Bytes)
    → c.progress ≡ Progress.running
    → c.state ≡ CentralState.device_scan_req
    → (step c (record i { message = answer })).state ≡ (step c i).state
unfolding turn device_scan_req receive
scan_response_ignored c i answer r s =
    ap (λ (d : Central). d.state) (step-turn c (record i { message = answer }) r s)
    ∙ ground arith
    ∙ sym (ap (λ (d : Central). d.state) (step-turn c i r s))

-- A device information that shows the advertisement which the gateway looks for.
abbrev pub is_match : Central → Bool
is_match c =
    is_vendor_event c.buffer && event_of c.buffer == Event.device_information && is_wanted c.buffer

-- Where a scan goes that has no match, by the low byte that the call leaves behind.
abbrev pub unmatched : ℕ → CentralState
unmatched status =
    if status == 1
    then CentralState.device_scan_req
    else if status == 2
    then CentralState.device_scan_cancel
    else CentralState.device_scan_data

-- While scan data come in: a match ends the scan; anything else, the end of the scan and a broken
-- packet included, goes by the value that the call leaves behind. No value leads from here back to
-- the scan request but 1: the branch for -1 is never taken, since a `uint8_t` is not -1.
pub scan_data-next :
    (c : Central) (i : Inputs)
    → c.progress ≡ Progress.running
    → c.state ≡ CentralState.device_scan_data
    → (step c i).state ≡ (
        if is_match (receive c i)
        then CentralState.device_scan_cancel
        else unmatched (u8 i.residue))
unfolding turn device_scan_data after_scan_data
scan_data-next c i r s = ap (λ (d : Central). d.state) (step-turn c i r s) ∙ ground arith
