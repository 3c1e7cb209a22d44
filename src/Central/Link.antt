-- ===== src/Central/Link.antt =====
-- The connecting half of `CentralModeThread` in BLE_Scanner/src/CentralModeThread.c.
use ble_parking_gate_way.Prelude.{
  ◌≡◌, ◌⊎◌, refl, sym, ◌∙◌, ap, Bool, true, false, ◌&&◌, List, [], ◌∷◌, ◌++◌, Bytes, Memory, memcpy,
  cells, append_assoc, arith, ◌==◌, inl, inr, u8,
}
use ble_parking_gate_way.Hci.{make16ofxy}
use ble_parking_gate_way.Hci.Event
use ble_parking_gate_way.Commands
use ble_parking_gate_way.Central.State.{CentralState, Progress, Central, Inputs}
use ble_parking_gate_way.Central.Calls.{
  receive, copy_down, event_of, is_vendor_event, device_scan_data, device_scan_cancel_req,
  device_scan_cancel_rsp, device_establish_link_req, device_establish_link_rsp, bond,
}
use ble_parking_gate_way.Central.Loop.{after_scan_data, turn, step, run}
use ble_parking_gate_way.Central.Reach.{step-turn, step_stopped, step_waits}
use ble_parking_gate_way.Central.Scan.{is_match}

-- `Scanned_MAC_Buff` after a match: bytes 13 down to 8 of the packet.
abbrev pub matched_mac : Central → Memory
matched_mac c = memcpy c.mac (copy_down 6 13 c.buffer)

-- The states between the match and the request to connect.
abbrev is_cancelling : CentralState → Bool
is_cancelling CentralState.device_scan_cancel = true
is_cancelling CentralState.device_scan_cancel_rsp = true
is_cancelling CentralState.device_establish_link_req = true
is_cancelling _ = false

-- The address `mac` is kept until the request is written.
abbrev Holds : Memory → Central → Type 0
Holds mac c =
    ((c.progress ≡ Progress.running) × (c.mac ≡ mac) × (is_cancelling c.state ≡ true))
    ⊎ (c.state ≡ CentralState.device_establish_link_rsp)

turn-Holds :
    (s : CentralState) (mac : Memory) (c : Central) (i : Inputs)
    → c.state ≡ s
    → c.progress ≡ Progress.running
    → c.mac ≡ mac
    → is_cancelling s ≡ true
    → Holds mac (turn s c i)
unfolding turn device_scan_cancel_req device_scan_cancel_rsp device_establish_link_req receive
turn-Holds CentralState.device_scan_cancel mac c i e r m h = ground arith
turn-Holds _ mac c i e r m h = ground arith

step-Holds : (mac : Memory) (c : Central) (i : Inputs) → Holds mac c → Holds mac (step c i)
step-Holds mac c i (inl (r, m, h)) =
    rw (step-turn c i r refl) (turn-Holds c.state mac c i refl r m h)
step-Holds mac c i (inr w) = inr (step_waits c i w)

run-Holds : (mac : Memory) (is : List Inputs) (c : Central) → Holds mac c → Holds mac (run c is)
unfolding run
run-Holds mac [] c h = h
run-Holds mac (i ∷ is) c h = run-Holds mac is (step c i) (step-Holds mac c i h)

receive-progress : (c : Central) (i : Inputs) → (receive c i).progress ≡ c.progress
unfolding receive
receive-progress c i = refl

written_req :
    (c : Central) (i : Inputs)
    → (turn CentralState.device_establish_link_req c i).written
      ≡ c.written ++ Commands.device_establish_link_req c.mac ∷ []
unfolding turn device_establish_link_req
written_req c i = ground arith

req-ne-rsp : CentralState.device_establish_link_req ≡ CentralState.device_establish_link_rsp → ⊥
req-ne-rsp h = cc

step_match :
    (c : Central) (i : Inputs)
    → c.progress ≡ Progress.running
    → c.state ≡ CentralState.device_scan_data
    → is_match (receive c i) ≡ true
    → (step c i).progress ≡ Progress.running
      × ((step c i).mac ≡ matched_mac (receive c i))
      × ((step c i).state ≡ CentralState.device_scan_cancel)
unfolding turn device_scan_data after_scan_data
step_match c i r s h =
    rw (step-turn c i r s) (ground (arith, receive-progress c i), ground arith, ground arith)

-- The request to connect, over the address in the order of the wire.
abbrev pub establish_bytes : Bytes → Bytes
establish_bytes address = 0x01 ∷ 0x09 ∷ 0xFE ∷ 0x09 ∷ 0x00 ∷ 0x00 ∷ 0x01 ∷ address

pub establish_matched :
    (c : Central)
    → Commands.device_establish_link_req (matched_mac c) ≡ establish_bytes (cells c.buffer 8 6)
unfolding Commands.device_establish_link_req copy_down
establish_matched c = refl

-- After a match, whatever happens while the scan is cancelled, retries included: if the request
-- to connect is written at all, it is for the address of the matching packet, its bytes 8 to 13
-- in their order.
pub link_target :
    (c : Central) (match : Inputs) (is : List Inputs) (i : Inputs)
    → c.progress ≡ Progress.running
    → c.state ≡ CentralState.device_scan_data
    → is_match (receive c match) ≡ true
    → (run (step c match) is).state ≡ CentralState.device_establish_link_req
    → (step (run (step c match) is) i).written
      ≡ (run (step c match) is).written ++ establish_bytes (cells (receive c match).buffer 8 6) ∷ []
link_target c match is i r s h at_req =
    let (r', m', s') = step_match c match r s h in
    let held =
      run-Holds (matched_mac (receive c match)) is (step c match)
        (inl (r', m', ap is_cancelling s')) in
    elim held [
      | inl (running, kept, _) ↦
          ap (λ (d : Central). d.written) (step-turn (run (step c match) is) i running at_req)
          ∙ written_req (run (step c match) is) i
          ∙ ap
              (λ mac.
                (run (step c match) is).written ++ Commands.device_establish_link_req mac ∷ [])
              kept
          ∙ ap (λ pac. (run (step c match) is).written ++ pac ∷ [])
              (establish_matched (receive c match))
      | inr waits ↦ absurd (req-ne-rsp (sym at_req ∙ waits))
    ]

-- The packets of `bond()` with the LED packet built from index 0.
abbrev pub bonding : List Bytes
bonding =
    Commands.bond
    ∷ Commands.passkey
    ∷ Commands.notify
    ∷ (0x01 ∷ 0x92 ∷ 0xFD ∷ 0x09 ∷ 0x00 ∷ 0x00 ∷ 0x0E ∷ 0x00 ∷ 0x3C ∷ 0x30 ∷ 0x41 ∷ 0x30 ∷ 0x3E
        ∷ [])
    ∷ []

bond-bonding :
    (c : Central) (i : Inputs)
    → i.led_idx ≡ 0
    → bond c i ≡ record c { written = c.written ++ bonding; progress = Progress.spinning }
unfolding bond Commands.data_led
bond-bonding c i h = rw h (simp append_assoc)

-- The packet that tells of the new link.
abbrev pub is_established : Memory → Bool
is_established b = is_vendor_event b && event_of b == Event.link_established

-- What `Device_Establish_Link_Rsp` takes from that packet: the address and the handle.
abbrev pub linked : Central → Central
linked c = record c {
  mac = memcpy c.mac (copy_down 6 12 c.buffer);
  conn_handle = make16ofxy (c.buffer 14) (c.buffer 13);
}

step_established :
    (c : Central) (i : Inputs)
    → c.progress ≡ Progress.running
    → c.state ≡ CentralState.device_establish_link_rsp
    → is_established (receive c i).buffer ≡ true
    → step c i ≡ bond (linked (receive c i)) i
unfolding turn device_establish_link_rsp
step_established c i r s h = step-turn c i r s ∙ ground arith

run_spinning : (is : List Inputs) (c : Central) → c.progress ≡ Progress.spinning → run c is ≡ c
unfolding run
run_spinning [] c h = refl
run_spinning (i ∷ is) c h = ap (λ d. run d is) (step_stopped c i h) ∙ run_spinning is c h

-- When the link is established, the thread notes the peer's address and handle, writes the
-- bonding request, the passkey, the enabling of notifications and the LED message, and then does
-- nothing more, whatever else comes in. The LED packet's index is taken to start from 0.
pub run_established :
    (c : Central) (i : Inputs) (is : List Inputs)
    → c.progress ≡ Progress.running
    → c.state ≡ CentralState.device_establish_link_rsp
    → is_established (receive c i).buffer ≡ true
    → i.led_idx ≡ 0
    → run c (i ∷ is) ≡ record (linked (receive c i)) {
      written = c.written ++ bonding;
      progress = Progress.spinning;
    }
unfolding run
run_established c i is r s h zeroed =
    ap (λ d. run d is) (step_established c i r s h ∙ bond-bonding (linked (receive c i)) i zeroed)
    ∙ run_spinning is _ refl
    ∙ unfold receive in refl

-- Any other packet, and none at all, only leaves its bytes in the buffer, unless the value left
-- behind by a function that returns nothing reads as 0.
pub step_not_established :
    (c : Central) (i : Inputs)
    → c.progress ≡ Progress.running
    → c.state ≡ CentralState.device_establish_link_rsp
    → is_established (receive c i).buffer ≡ false
    → (u8 i.residue == 0) ≡ false
    → step c i ≡ receive c i
unfolding turn device_establish_link_rsp
step_not_established c i r s h nonzero = step-turn c i r s ∙ ground arith

-- If that value does read as 0, a terminated link (event 0x0606, for another reason than 0x3E) is
-- taken for an established one, and the thread bonds over the old address and handle.
pub step_terminated_bonds :
    (c : Central) (i : Inputs)
    → c.progress ≡ Progress.running
    → c.state ≡ CentralState.device_establish_link_rsp
    → is_vendor_event (receive c i).buffer ≡ true
    → event_of (receive c i).buffer ≡ 0x0606
    → ((receive c i).buffer 8 == 0x3E) ≡ false
    → u8 i.residue ≡ 0
    → step c i ≡ bond (receive c i) i
unfolding turn device_establish_link_rsp
step_terminated_bonds c i r s v e other zeroed = step-turn c i r s ∙ ground arith
