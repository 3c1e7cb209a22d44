-- ===== src/Network/Running/Promises.antt =====
-- What the threads of BLE_Scanner/src do with what the controller sends, over queues of limited size:
-- what they can reach, and where `UartCmdRxThread` waits for ever.
use ble_parking_gate_way.Prelude.{
  ℕ, suc, ◌≤◌, ◌<◌, ◌≡◌, refl, Bool, false, ◌&&◌, ◌==◌, List, ◌∷◌, ◌++◌, map, Bytes, Memory, length,
  replicate, In, if◌then◌else◌,
}
use ble_parking_gate_way.Drivers.{Queue}
use ble_parking_gate_way.Receiver.Frames.{ready, wire, All}
use ble_parking_gate_way.Router.Links.{ack_bytes}
use ble_parking_gate_way.Uart.Log.{messages_on}
use ble_parking_gate_way.Uart.Answers.{Traffic, item_of, IsPlain, delivered}
use ble_parking_gate_way.Central.State.{Progress}
use ble_parking_gate_way.Start.{Thread, uart_cmd_rx_thread, central_mode_thread, Started, main}
use ble_parking_gate_way.Network.Queues.{Queued}
use ble_parking_gate_way.Network.Queues.Linked.{Conversation, HasLink}
use ble_parking_gate_way.Network.Bounded.Linked.{linked_limited}
use ble_parking_gate_way.Network.Bounded.Writes.{repeated, write, writes_stop_reading, writes_read}
use ble_parking_gate_way.Network.Bounded.Finished.{finished_stops_reading}
use ble_parking_gate_way.Network.Running.{Running, unread_bytes, Later, between_turns, begin}
use ble_parking_gate_way.Network.Running.Steps.{Later-bounded, between_turns-Later, unread-behind}

-- The thread has read some bytes, and is between two turns.
abbrev pub HasRead : ℕ → Started → Running → Running → Bytes → Type 0
HasRead limit started s t more =
    Later limit started s t
    × (unread_bytes t ≡ more)
    × (t.is_read ≡ false)
    × (t.sys_exit_flag ≡ false)

-- A state between two turns of `UartCmdRxThread` follows, in which these bytes are not read.
abbrev pub IsLater : ℕ → Started → Running → Bytes → Queued → Type 0
IsLater limit started s more queued =
    HasRead limit started s (between_turns (record { queued = queued; wire = more })) more

-- The program connects, over queues of limited size: if `UartCmdRxThread` and `CentralModeThread` are
-- among the threads that run, `SysExitFlag` is not set, and the controller sends any mix of stray
-- bytes and of what `IsPlain` admits (the eight kinds of events that `UartCmdRxThread` passes on to
-- `CentralModeThread` whatever they hold, and the statuses of commands other than 0xFD13, 0xFD92, 0xFD9B,
-- 0xFDB6, 0xFDFC, 0xFDFD, 0xFDFE, 0xFE06, 0xFE07 and 0xFE30, each with at most 97 bytes of payload and
-- without 0xFC06 or 0xFC21 in the place of the command), whose messages are a conversation for an
-- address and no more than a queue holds, then they can reach (where writes succeed, the index that
-- `data_led` does not initialise is 0, and for values that the functions without a `return` may
-- leave behind) a state in which exactly these bytes have been read, `CentralModeThread` has taken all
-- the messages and finished, what it has written after its setup are the request to scan, the request
-- to end the scan, the request to connect to that address, and the bonding, `UartCmdRxThread` is between
-- two packets, and nothing was forwarded to the peers.
pub connects :
    (limit : ℕ) (started : Started) (rx_packet buffer_rx : Memory) (address : Bytes)
    (ts : List Traffic) (more : Bytes)
    → started.sys_exit_flag ≡ false
    → In uart_cmd_rx_thread started.threads
    → In central_mode_thread started.threads
    → All IsPlain ts
    → Conversation address (messages_on Queue.command_resp (delivered ts))
    → length (delivered ts) ≤ limit
    → HasLink
        (IsLater limit started (begin rx_packet buffer_rx (wire (map item_of ts) ++ more)) more)
        address
connects limit started rx_packet buffer_rx address ts more clear uart central plain talk few =
    let (queued, l, spins, written, taken, idle) =
      linked_limited limit started.threads rx_packet buffer_rx address ts more uart central plain
        talk few in
    (queued, (between_turns-Later l, refl, refl, refl), spins, written, taken, idle)

-- A turn has not ended, and of the bytes behind it none is read.
abbrev pub HasUnread : Running → Bytes → Type 0
HasUnread t more =
    (b : ℕ) × (left : Bytes) × (t.bounded.wire ≡ b ∷ left ++ more)
    × (unread_bytes t ≡ (if t.is_read then left else b ∷ left) ++ more)

module _ (state signature kind a b : ℕ) (rest : Bytes) (fits : length rest ≤ 85)
    (plain : (a == 0x30 && b == 0x31) ≡ false) (no_ping : (a == 0x50 && b == 0x42) ≡ false) where
  abbrev writes : ℕ → Bytes
  writes n = repeated n (write state signature kind a b rest fits plain no_ping)

  -- The program stops for good under ordinary traffic. Where a queue holds at most `limit` messages:
  -- whichever threads `main` manages to start and whatever turns they take, if the controller reports
  -- `limit + 1` times the same write of the peer on connection 0 to the attribute handle 0x0003, of 2 to
  -- 87 bytes that begin neither as a command (0x30 0x31) nor as a ping (0x50 0x42), then there is always a byte of these writes
  -- whose turn has not ended, and no byte behind the writes is ever read.
  pub stops_at_writes :
      (limit opened : ℕ) (created : Thread → Bool) {rx_packet buffer_rx : Memory} {t : Running}
      (more : Bytes)
      → Later limit (main opened created) (begin rx_packet buffer_rx (writes (suc limit) ++ more)) t
      → HasUnread t more
  stops_at_writes limit opened created {t} more l =
      let (byte, left, same) =
        writes_stop_reading state signature kind a b rest fits plain no_ping limit opened created
          more (Later-bounded l) in
      (byte, left, same, unread-behind t byte left more same)

  -- The bound is met: if `main` manages to start `UartCmdRxThread` and has not set `SysExitFlag`, then
  -- `limit` such writes can all be read and handled, each is acknowledged with the same packet, and the
  -- thread writes nothing else.
  pub reads_writes :
      (limit opened : ℕ) (created : Thread → Bool) (rx_packet buffer_rx : Memory) (more : Bytes)
      → (main opened created).sys_exit_flag ≡ false
      → In uart_cmd_rx_thread (main opened created).threads
      → (t : Running) × HasRead limit
          (main opened created)
          (begin rx_packet buffer_rx (writes limit ++ more))
          t
          more
        × (t.bounded.queued.net.gateway.written ≡ replicate limit (ack_bytes 0x00))
  reads_writes limit opened created rx_packet buffer_rx more clear mine =
      let (t, l, left, acked) =
        writes_read state signature kind a b rest fits plain no_ping limit opened created rx_packet
          buffer_rx more mine in
      (between_turns t, (between_turns-Later l, left, refl, refl), acked)

-- Whichever threads run, all four included: in every state that they reach over queues with a limit, in
-- which `CentralModeThread` has connected and stopped, and `UartCmdRxThread` is between two packets, let
-- the bytes whose turn has not ended begin with a mix of stray bytes and of what `IsPlain` admits: the
-- eight kinds of events that are passed on to `CentralModeThread` whatever they hold, and the statuses of
-- commands other than 0xFD13, 0xFD92, 0xFD9B, 0xFDB6, 0xFDFC, 0xFDFD, 0xFDFE, 0xFE06, 0xFE07 and 0xFE30,
-- each with at most 97 bytes of payload and without 0xFC06 or 0xFC21 in the place of the command. If
-- these events and statuses are more than the limit, then there is always a byte of the mix whose
-- turn has not ended, and no byte behind the mix is ever read.
pub stops_when_connected :
    {limit : ℕ} {started : Started} {rx_packet buffer_rx m : Memory} {whole : Bytes} {s t : Running}
    (ts : List Traffic) (more : Bytes)
    → Later limit started (begin rx_packet buffer_rx whole) s
    → s.bounded.queued.net.central.progress ≡ Progress.spinning
    → s.bounded.queued.net.receiver ≡ ready m
    → All IsPlain ts
    → limit < length (delivered ts)
    → s.bounded.wire ≡ wire (map item_of ts) ++ more
    → Later limit started s t
    → HasUnread t more
stops_when_connected {t} ts more before stopped between plain over same l =
    let (byte, left, waits) =
      finished_stops_reading ts more (Later-bounded before) stopped between plain over same
        (Later-bounded l) in
    (byte, left, waits, unread-behind t byte left more waits)
