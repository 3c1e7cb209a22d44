-- ===== src/Central/Reach.antt =====
-- Which states `CentralModeThread` of BLE_Scanner/src/CentralModeThread.c can be in.
use ble_parking_gate_way.Prelude.{
  ℕ, ◌≡◌, ◌⊎◌, refl, ◌∙◌, ap, Bool, true, false, List, [], ◌∷◌, arith, inl, inr,
}
use ble_parking_gate_way.Central.State.{CentralState, Progress, Central, Inputs}
use ble_parking_gate_way.Central.Calls.{
  receive, device_scan_cancel_req, device_scan_cancel_rsp, device_establish_link_req,
  device_establish_link_rsp, bond,
}
use ble_parking_gate_way.Central.Loop.{after_scan_data, turn, step_in, step, run, start}

-- No call moves the state; the loop does.
pub device_establish_link_rsp-state :
    (c : Central) (i : Inputs) → (device_establish_link_rsp c i).central.state ≡ c.state
unfolding device_establish_link_rsp receive
device_establish_link_rsp-state c i = ground arith

pub bond-state : (c : Central) (i : Inputs) → (bond c i).state ≡ c.state
unfolding bond
bond-state c i = ground arith

-- The states with a way from the start.
abbrev pub is_used : CentralState → Bool
is_used CentralState.init = true
is_used CentralState.device_scan_req = true
is_used CentralState.device_scan_data = true
is_used CentralState.device_scan_cancel = true
is_used CentralState.device_scan_cancel_rsp = true
is_used CentralState.device_establish_link_req = true
is_used CentralState.device_establish_link_rsp = true
is_used _ = false

after_scan_data-is_used : (status : ℕ) → is_used (after_scan_data status) ≡ true
unfolding after_scan_data
after_scan_data-is_used status = ground arith

turn-is_used :
    (s : CentralState) (c : Central) (i : Inputs)
    → c.state ≡ s
    → is_used s ≡ true
    → is_used (turn s c i).state ≡ true
unfolding turn device_scan_cancel_req device_scan_cancel_rsp device_establish_link_req receive
turn-is_used CentralState.init c i e h = refl
turn-is_used CentralState.device_scan_data c i e h = after_scan_data-is_used _
turn-is_used CentralState.device_establish_link_rsp c i e h = ground (
  arith,
  device_establish_link_rsp-state c i,
  bond-state (device_establish_link_rsp c i).central i,
)
turn-is_used _ c i e h = ground arith

step_in-is_used :
    (p : Progress) (c : Central) (i : Inputs)
    → is_used c.state ≡ true
    → is_used (step_in p c i).state ≡ true
step_in-is_used Progress.running c i h = turn-is_used c.state c i refl h
step_in-is_used _ c i h = h

pub step-is_used :
    (c : Central) (i : Inputs) → is_used c.state ≡ true → is_used (step c i).state ≡ true
unfolding step
step-is_used c i h = step_in-is_used c.progress c i h

run-is_used :
    (is : List Inputs) (c : Central) → is_used c.state ≡ true → is_used (run c is).state ≡ true
unfolding run
run-is_used [] c h = h
run-is_used (i ∷ is) c h = run-is_used is (step c i) (step-is_used c i h)

-- Whatever the UART, the queue and the connection list do, the thread stays in seven of its 15
-- states; those in which it would discover a characteristic, enable notifications or write an
-- identifier are not among them.
pub run-start-is_used : (is : List Inputs) → is_used (run start is).state ≡ true
run-start-is_used is = run-is_used is start (unfold start in refl)

-- A thread that runs, or one that takes no turn any more.
pub Progress-cases :
    (p : Progress) → (p ≡ Progress.running) ⊎ ((c : Central) (i : Inputs) → step_in p c i ≡ c)
Progress-cases Progress.running = inl refl
Progress-cases Progress.spinning = inr (λ c i. refl)
Progress-cases (Progress.faulted e) = inr (λ c i. refl)

pub step-turn :
    {s : CentralState} (c : Central) (i : Inputs)
    → c.progress ≡ Progress.running
    → c.state ≡ s
    → step c i ≡ turn s c i
unfolding step
step-turn c i r h = ap (λ p. step_in p c i) r ∙ ap (λ s. turn s c i) h

pub step_stopped : (c : Central) (i : Inputs) → c.progress ≡ Progress.spinning → step c i ≡ c
unfolding step
step_stopped c i h = ap (λ p. step_in p c i) h

turn_waits :
    (c : Central) (i : Inputs)
    → c.state ≡ CentralState.device_establish_link_rsp
    → (turn CentralState.device_establish_link_rsp c i).state
      ≡ CentralState.device_establish_link_rsp
unfolding turn
turn_waits c i h = ground (
  arith,
  device_establish_link_rsp-state c i,
  bond-state (device_establish_link_rsp c i).central i,
)

pub step_waits :
    (c : Central) (i : Inputs)
    → c.state ≡ CentralState.device_establish_link_rsp
    → (step c i).state ≡ CentralState.device_establish_link_rsp
unfolding step
step_waits c i h = elim (Progress-cases c.progress) [
  | inl r ↦ ap (λ (d : Central). d.state) (step-turn c i r h) ∙ turn_waits c i h
  | inr stopped ↦ ap (λ (d : Central). d.state) (stopped c i) ∙ h
]

-- Once the thread waits for the answer to its request to connect, it never leaves that state: if
-- the connection fails, nothing starts a new scan.
pub run_waits :
    (is : List Inputs) (c : Central)
    → c.state ≡ CentralState.device_establish_link_rsp
    → (run c is).state ≡ CentralState.device_establish_link_rsp
unfolding run
run_waits [] c h = h
run_waits (i ∷ is) c h = run_waits is (step c i) (step_waits c i h)
