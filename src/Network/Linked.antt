-- ===== src/Network/Linked.antt =====
-- A run of the threads of BLE_Scanner/src/UartCmdRxThread.c and CentralModeThread.c from the
-- program's start to a link with a peripheral.
use ble_parking_gate_way.Prelude.{
  append_assoc, cells, ◌==◌, ◌∙◌, ℕ, ◌≡◌, refl, List, [], ◌∷◌, ◌++◌, Option, none, some, Bytes,
  Memory, first, later, true, false, length, map, arith, Holds-ok,
}
use ble_parking_gate_way.Drivers.{Queue, sys_mq_recv}
use mathlib.Core.Path.{ap₂}
use ble_parking_gate_way.Connections.Count.{device_conn_count, connected_loop}
use ble_parking_gate_way.Commands
use ble_parking_gate_way.Receiver.Frames.{ready, wire, event_bytes, All}
use ble_parking_gate_way.Router.Forwarding.{Answer}
use ble_parking_gate_way.Uart.Answers.{
  Traffic, answer, answer_payload, item_of, IsPlain, delivered, thread-delivered,
}
use ble_parking_gate_way.Central.State.{CentralState, Progress, Central, Inputs}
use ble_parking_gate_way.Central.Calls.{receive, device_scan_req, device_scan_rsp}
use ble_parking_gate_way.Central.Loop
use ble_parking_gate_way.Central.Scan.{is_match}
use ble_parking_gate_way.Central.Connect.{run-linked}
use ble_parking_gate_way.Central.Link.{establish_bytes, bonding}
use ble_parking_gate_way.Network.{
  Network, Receivable, failed, message, central_turn, zeroed, begin, Reach, here, next,
}
use ble_parking_gate_way.Network.Safety.{Reach-unconnected}
use ble_parking_gate_way.Network.Relayed.{read_by, Reach-thread}

-- What a turn of `CentralModeThread` may meet in a state.
abbrev IsPossible : Network → Inputs → Type 0
IsPossible s i =
    Receivable Queue.command_resp s.gateway.sent i.message × (i.devices ≡ s.gateway.devices)

Reach-run :
    {rx_packet buffer_rx : Memory} (is : List Inputs) {s : Network}
    → Reach rx_packet buffer_rx s
    → All (IsPossible s) is
    → Reach rx_packet buffer_rx (record s { central = Loop.run s.central is })
unfolding Loop.run
Reach-run [] r h = r
Reach-run (i ∷ is) r ((may, same), t) = Reach-run is (next r (central_turn i may same)) t

-- A turn of `CentralModeThread` on the connection list as it is at the start.
abbrev input : ℕ → Option Bytes → Inputs
input written got = record {
  write_result = written;
  message = got;
  devices = zeroed;
  residue = 0;
  led_idx = 0;
}

module _ (a b c d e f : ℕ) where
  -- The advertisement of a peripheral with the address, the end of the scan, and the link.
  abbrev pub advertised : Bytes
  advertised =
      a ∷ b ∷ c ∷ d ∷ e ∷ f ∷ 0xC8 ∷ 0x0B ∷ 0x02 ∷ 0x01 ∷ 0x06 ∷ 0x11 ∷ 0x07 ∷ 0x9E ∷ 0xCA ∷ 0xDC
      ∷ 0x24 ∷ []

  abbrev pub linked : Bytes
  linked = b ∷ c ∷ d ∷ e ∷ f ∷ 0x00 ∷ 0x00 ∷ 0x00 ∷ []

  abbrev pub session : List Traffic
  session =
      answer Answer.device_information 0x00 0x00 0x00 advertised
      ∷ answer Answer.device_discovery 0x30 0x00 0x00 (0x00 ∷ [])
      ∷ answer Answer.link_established 0x00 0x00 a linked
      ∷ []

  session-IsPlain : All IsPlain session
  session-IsPlain = (
    (omega arith, refl, refl),
    ((omega arith, refl, refl), ((omega arith, ground arith, ground arith), tt)),
  )

  -- What `CentralModeThread` meets from the match on.
  abbrev matching : Inputs
  matching =
      input 0 (
        some
          (event_bytes 0xFF (answer_payload Answer.device_information 0x00 0x00 0x00 advertised)))

  abbrev cancelled : Inputs
  cancelled =
      input 0 (
        some (event_bytes 0xFF (answer_payload Answer.device_discovery 0x30 0x00 0x00 (0x00 ∷ []))))

  abbrev established : Inputs
  established =
      input 0 (some (event_bytes 0xFF (answer_payload Answer.link_established 0x00 0x00 a linked)))

  -- Before the scan nothing arrives.
  abbrev scanning : Central
  scanning =
      Loop.step (Loop.step Loop.start (input 0 none)) (input (length Commands.device_scan_req) none)

  abbrev connecting : List Inputs
  connecting = matching ∷ input 4 none ∷ cancelled ∷ input 13 none ∷ established ∷ []

  central_scanning :
      (scanning.progress ≡ Progress.running)
      × (scanning.state ≡ CentralState.device_scan_data)
      × (scanning.written ≡ Loop.start.written ++ Commands.device_scan_req ∷ [])
      × (is_match (receive scanning matching) ≡ true)
      × (cells (receive scanning matching).buffer 8 6 ≡ a ∷ b ∷ c ∷ d ∷ e ∷ f ∷ [])
  unfolding Loop.step Loop.turn Loop.start device_scan_req device_scan_rsp receive sys_mq_recv
      device_conn_count connected_loop Commands.device_scan_req
  central_scanning = (refl, refl, refl, refl, refl)

  central_linked :
      (let end = Loop.run scanning connecting in
        (end.progress ≡ Progress.spinning)
        × (end.written
            ≡ Loop.start.written
              ++ Commands.device_scan_req
                ∷ Commands.device_scan_cancel_req
                ∷ establish_bytes (a ∷ b ∷ c ∷ d ∷ e ∷ f ∷ [])
                ∷ bonding))
  central_linked =
      let (running, there, so_far, matches, address) = central_scanning in
      let (stopped, written) =
        run-linked scanning matching (input 4 none) cancelled (input 13 none) established [] 0x06
          0x0D (0x00 ∷ 0x00 ∷ 0x00 ∷ []) (0x00 ∷ 0x00 ∷ a ∷ linked) running there matches refl refl
          refl refl refl in
      (
        stopped,
        written
            ∙ ap₂
                (λ front bytes.
                  front ++ Commands.device_scan_cancel_req ∷ establish_bytes bytes ∷ bonding)
                so_far address
            ∙ append_assoc Loop.start.written _ _,
      )

-- The threads can connect: from the program's start, for any address of a peripheral that advertises
-- the service that is looked for, they can reach a state in which `CentralModeThread` has finished,
-- and what it has written after its setup are the request to scan, the request to end the scan, the
-- request to connect to that address, and the bonding. The connection list marks no device as
-- connected, all the same.
pub Reach-linked :
    (rx_packet buffer_rx : Memory) (a b c d e f : ℕ)
    → (s : Network) × Reach rx_packet buffer_rx s
      × (s.central.progress ≡ Progress.spinning)
      × (s.central.written
          ≡ Loop.start.written
            ++ Commands.device_scan_req
              ∷ Commands.device_scan_cancel_req
              ∷ establish_bytes (a ∷ b ∷ c ∷ d ∷ e ∷ f ∷ [])
              ∷ bonding)
      × ((i : ℕ) → ((s.gateway.devices i).status == 1) ≡ false)
unfolding Loop.run
Reach-linked rx_packet buffer_rx a b c d e f =
    let s0 = begin rx_packet buffer_rx in
    let (m, read) =
      thread-delivered (session a b c d e f) rx_packet s0.gateway (session-IsPlain a b c d e f) in
    let r1 =
      Holds-ok (λ out. Reach rx_packet buffer_rx (read_by s0 out)) _ read
        (Reach-thread (wire (map item_of (session a b c d e f))) here) in
    let s1 =
      read_by s0 (
        ready m,
        record s0.gateway { sent = s0.gateway.sent ++ delivered (session a b c d e f) },
      ) in
    let turns : All (IsPossible s1)
        (input 0 none ∷ input (length Commands.device_scan_req) none ∷ connecting a b c d e f) =
      (
        (failed, refl),
        (
          (failed, refl),
          (
            (message (first refl), refl),
            (
              (failed, refl),
              (
                (message (later (first refl)), refl),
                ((failed, refl), ((message (later (later (first refl))), refl), tt)),
              ),
            ),
          ),
        ),
      ) in
    let r2 =
      Reach-run
        (input 0 none ∷ input (length Commands.device_scan_req) none ∷ connecting a b c d e f) r1
        turns in
    (
      _,
      r2,
      (central_linked a b c d e f).0,
      (central_linked a b c d e f).1,
      (Reach-unconnected r2).0,
    )
