-- ===== src/Central/Wait.antt =====
-- What `CentralModeThread` of BLE_Scanner/src/CentralModeThread.c does with the messages that it does
-- not wait for.
use ble_parking_gate_way.Prelude.{
  ◌≤◌, ◌≡◌, ◌∙◌, refl, ap, sym, Bool, true, false, ◌&&◌, Memory, arith, ◌==◌, u8,
}
use ble_parking_gate_way.Hci.Event
use ble_parking_gate_way.Central.State.{CentralState, Progress, Central, Inputs}
use ble_parking_gate_way.Central.Calls.{
  receive, event_of, is_vendor_event, is_wanted, device_scan_data, device_scan_cancel_rsp,
  device_establish_link_rsp,
}
use ble_parking_gate_way.Central.Loop.{go_to, after_scan_data, turn, step}
use ble_parking_gate_way.Central.Reach.{step-turn}
use ble_parking_gate_way.Central.Link.{is_established, step_not_established}

-- The end of the scan, by its status 0x30.
abbrev pub is_scan_end : Memory → Bool
is_scan_end b = is_vendor_event b && event_of b == Event.device_discovery && b 5 == 0x30

abbrev pub is_advertised : Memory → Bool
is_advertised b = is_vendor_event b && event_of b == Event.device_information && is_wanted b

-- The states that a message ends, with the test of that message.
pub data Awaits : CentralState → (Memory → Bool) → Type 0 where
  advertisement : Awaits CentralState.device_scan_data is_advertised
  scan_end : Awaits CentralState.device_scan_cancel_rsp is_scan_end
  link : Awaits CentralState.device_establish_link_rsp is_established

go_to_same : (s : CentralState) (c : Central) → c.state ≡ s → go_to s c ≡ c
go_to_same s c h = ap (λ s'. go_to s' c) (sym h)

receive-state : (c : Central) (i : Inputs) → (receive c i).state ≡ c.state
unfolding receive
receive-state c i = refl

-- A message that is not the one that is waited for only goes into the buffer, unless the value left
-- behind by a function that returns nothing reads as 0, 1 or 2.
pub step_unexpected :
    {s : CentralState} {test : Memory → Bool} (c : Central) (i : Inputs)
    → Awaits s test
    → c.progress ≡ Progress.running
    → c.state ≡ s
    → test (receive c i).buffer ≡ false
    → 3 ≤ u8 i.residue
    → step c i ≡ receive c i
unfolding turn device_scan_data after_scan_data device_scan_cancel_rsp device_establish_link_rsp
step_unexpected c i advertisement r s h other =
    step-turn c i r s
    ∙ (let again : turn CentralState.device_scan_data c i
            ≡ go_to CentralState.device_scan_data (receive c i) =
          ground arith in
        again)
    ∙ go_to_same _ (receive c i) (receive-state c i ∙ s)
step_unexpected c i scan_end r s h other = step-turn c i r s ∙ ground arith
step_unexpected c i link r s h other = step_not_established c i r s h (ground arith)

pub step_scan_end :
    (c : Central) (i : Inputs)
    → c.progress ≡ Progress.running
    → c.state ≡ CentralState.device_scan_cancel_rsp
    → is_scan_end (receive c i).buffer ≡ true
    → step c i ≡ go_to CentralState.device_establish_link_req (receive c i)
unfolding turn device_scan_cancel_rsp
step_scan_end c i r s h = step-turn c i r s ∙ ground arith
