-- ===== src/Network/Running.antt =====
-- The threads of BLE_Scanner/src as `main` of VVDNBLEMeshStack.c leaves them running, over queues of
-- limited size. In Bounded a turn is one step; here `UartCmdRxThread` looks at `SysExitFlag` and reads a
-- byte in one step, and ends its turn in another, so that it may have read a byte whose turn waits in
-- `msgsnd` for room. What a turn changes, it changes as it ends. `main` may set `SysExitFlag` at any time
-- if it does at all. That the process exits once `UartCmdRxThread` has ended, is left out: the other threads
-- may take turns for ever.
pub mod Steps
pub mod Promises
use ble_parking_gate_way.Prelude.{
  ℕ, ◌≡◌, Bool, true, false, [], ◌∷◌, Bytes, In, Memory, drop, if◌then◌else◌,
}
use ble_parking_gate_way.Start.{
  Thread, uart_cmd_rx_thread, central_mode_thread, pipe_0000_thread, forward_msg_queue_thread,
  Started,
}
use ble_parking_gate_way.Network.Bounded
use ble_parking_gate_way.Network.Bounded.{Bounded, turn}

-- `bounded.wire` holds the bytes whose turn has not ended; the first of them may be read already.
pub record Running : Type 0 where
  pub bounded : Bounded
  pub is_read : Bool
  pub sys_exit_flag : Bool

-- The bytes that were not read.
abbrev pub unread_bytes : Running → Bytes
unread_bytes s = if s.is_read then drop 1 s.bounded.wire else s.bounded.wire

abbrev pub is_uart : Thread → Bool
is_uart uart_cmd_rx_thread = true
is_uart central_mode_thread = false
is_uart pipe_0000_thread = false
is_uart forward_msg_queue_thread = false

module _ (limit : ℕ) (started : Started) where
  -- The thread that takes a turn.
  abbrev pub turn_of : {s t : Bounded} → Bounded.Step limit started.threads s t → Thread
  turn_of (turn step mine room same) = Bounded.runs step

  pub data Step (s : Running) : Running → Type 0 where
    -- `main` sets the flag.
    sets_flag : started.sys_exit_flag ≡ true → Step s (record s { sys_exit_flag = true })
    -- `UartCmdRxThread` finds the flag to be 0, and reads a byte.
    reads_byte :
        {b : ℕ} {rest : Bytes}
        → In uart_cmd_rx_thread started.threads
        → s.sys_exit_flag ≡ false
        → s.is_read ≡ false
        → s.bounded.wire ≡ b ∷ rest
        → Step s (record s { is_read = true })
    -- It ends the turn of the byte that it has read.
    ends_turn :
        {t : Bounded} (step : Bounded.Step limit started.threads s.bounded t)
        → is_uart (turn_of step) ≡ true
        → s.is_read ≡ true
        → Step s (record s { bounded = t; is_read = false })
    -- Another thread takes a turn.
    other_turn :
        {t : Bounded} (step : Bounded.Step limit started.threads s.bounded t)
        → is_uart (turn_of step) ≡ false
        → Step s (record s { bounded = t })

  -- What comes after a state.
  pub data Later (s : Running) : Running → Type 0 where
    here : Later s s
    next : {t u : Running} → Later s t → Step t u → Later s u

-- A state between two turns of `UartCmdRxThread`, the flag not set.
abbrev pub between_turns : Bounded → Running
between_turns s = record { bounded = s; is_read = false; sys_exit_flag = false }

-- The program's start, where the controller sends these bytes.
abbrev pub begin : Memory → Memory → Bytes → Running
begin rx_packet buffer_rx wire = between_turns (Bounded.begin rx_packet buffer_rx wire)
