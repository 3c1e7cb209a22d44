-- ===== src/Start.antt =====
-- `main` of BLE_Scanner/src/VVDNBLEMeshStack.c, and the runs of the threads that it starts.
use ble_parking_gate_way.Prelude.{
  ℕ, ◌≡◌, refl, Bool, true, false, List, [], ◌∷◌, ◌++◌, Memory, In, if◌then◌else◌, inl, inr, arith,
  Bool-cases,
}
use ble_parking_gate_way.Drivers.{is_negative, blecomopen}
use ble_parking_gate_way.Network.Safety.{In-append}
use ble_parking_gate_way.Network.{Network, Step, byte, central_turn, pipe, forward, begin}

-- The functions that run as threads.
pub data Thread : Type 0 where
  uart_cmd_rx_thread central_mode_thread pipe_0000_thread forward_msg_queue_thread : Thread

pub record Started : Type 0 where
  pub sys_exit_flag : Bool
  pub threads : List Thread

-- `if (pthread_create(...)) SysExitFlag = 1;`, given whether the thread is created.
abbrev pub pthread_create : Bool → Thread → Started → Started
pthread_create created thread s =
    if created
    then record s { threads = s.threads ++ thread ∷ [] }
    else record s { sys_exit_flag = true }

-- `main` up to its `pthread_join`, given what `open` returned and which threads are created.
unfoldable pub main : ℕ → (Thread → Bool) → Started
main opened created =
    let s : Started = record { sys_exit_flag = false; threads = [] } in
    if is_negative (blecomopen opened)
    then s
    else pthread_create (created central_mode_thread) central_mode_thread
        (pthread_create (created uart_cmd_rx_thread) uart_cmd_rx_thread s)

-- The thread that takes a step.
abbrev pub runs : {s t : Network} → Step s t → Thread
runs (byte b e) = uart_cmd_rx_thread
runs (central_turn i may same) = central_mode_thread
runs (pipe buff forward_data_buff from e) = pipe_0000_thread
runs (forward buffer status replies from e) = forward_msg_queue_thread

-- The states that are reached by steps of the threads in a list.
pub data ReachBy (threads : List Thread) (rx_packet buffer_rx : Memory) : Network → Type 0 where
  here : ReachBy threads rx_packet buffer_rx (begin rx_packet buffer_rx)
  next :
      {s t : Network}
      → ReachBy threads rx_packet buffer_rx s
      → (step : Step s t) → In (runs step) threads
      → ReachBy threads rx_packet buffer_rx t

abbrev pub is_started : Thread → Bool
is_started uart_cmd_rx_thread = true
is_started central_mode_thread = true
is_started _ = false

-- A list of no other threads than these two.
abbrev pub OnlyStarted : Started → Type 0
OnlyStarted s = (thread : Thread) → In thread s.threads → is_started thread ≡ true

create-OnlyStarted :
    (created : Bool) (thread : Thread) (s : Started)
    → is_started thread ≡ true
    → OnlyStarted s
    → OnlyStarted (pthread_create created thread s)
create-OnlyStarted false thread s e h = h
create-OnlyStarted true thread s e h = λ other from. elim (In-append s.threads thread from) [
  | inl old ↦ h other old
  | inr same ↦ rw (← same) e
]

pub main-OnlyStarted : (opened : ℕ) (created : Thread → Bool) → OnlyStarted (main opened created)
unfolding main
main-OnlyStarted opened created =
    let none_started : OnlyStarted (record { sys_exit_flag = false; threads = [] }) =
      λ thread from. elim from [ ] in
    let both =
      create-OnlyStarted (created central_mode_thread) central_mode_thread _ refl
        (create-OnlyStarted (created uart_cmd_rx_thread) uart_cmd_rx_thread _ refl none_started) in
    elim (Bool-cases (is_negative (blecomopen opened))) [
      | inl failed ↦ rw failed none_started
      | inr opens ↦ rw opens both
    ]

abbrev Quiet : Network → Type 0
Quiet s = (s.forwarded ≡ []) × (s.sender.written ≡ [])

Step-Quiet : {s t : Network} (step : Step s t) → is_started (runs step) ≡ true → Quiet s → Quiet t
Step-Quiet (byte b e) h q = q
Step-Quiet (central_turn i may same) h q = q
Step-Quiet (pipe buff forward_data_buff from e) h q = absurd (ground arith)
Step-Quiet (forward buffer status replies from e) h q = absurd (ground arith)

-- The program relays nothing: whichever threads `main` manages to start, whatever the controller
-- sends and in whatever order they take their turns, nothing is ever forwarded to the peers' queue,
-- and `Forward_MSG_Queue_Thread` writes nothing, since neither its thread nor the pipe's is started.
pub ReachBy-Quiet :
    (opened : ℕ) (created : Thread → Bool) {rx_packet buffer_rx : Memory} {s : Network}
    → ReachBy (main opened created).threads rx_packet buffer_rx s
    → (s.forwarded ≡ []) × (s.sender.written ≡ [])
ReachBy-Quiet opened created here = (refl, refl)
ReachBy-Quiet opened created (next r step from) =
    Step-Quiet step (main-OnlyStarted opened created (runs step) from)
      (ReachBy-Quiet opened created r)
