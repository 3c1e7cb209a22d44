-- ===== src/Network/Queues/Linked.antt =====
-- A run of the threads of BLE_Scanner/src/UartCmdRxThread.c and CentralModeThread.c over queues that hold
-- messages, from the program's start to a link with a peripheral.
use ble_parking_gate_way.Prelude.{
  ◌≡◌, ◌≤◌, refl, ◌∙◌, true, false, List, [], ◌∷◌, ◌++◌, append_assoc, map, Bytes, Memory, memcpy,
  cells, arith, Holds-ok,
}
use ble_parking_gate_way.Receiver.Frames.{All, wire}
use ble_parking_gate_way.Drivers.{Queue}
use ble_parking_gate_way.Commands
use ble_parking_gate_way.Uart.Log.{messages_on}
use ble_parking_gate_way.Uart.Answers.{Traffic, item_of, IsPlain, delivered, thread-delivered}
use ble_parking_gate_way.Uart.Counted.{tally_unconnected}
use ble_parking_gate_way.Connections.Count.{tally}
use ble_parking_gate_way.Central.State.{Progress}
use ble_parking_gate_way.Central.Loop
use ble_parking_gate_way.Central.Link.{is_established, establish_bytes, bonding}
use ble_parking_gate_way.Central.Wait.{advertisement, scan_end, link, is_advertised, is_scan_end}
use ble_parking_gate_way.Network.Safety.{Reach-unconnected}
use ble_parking_gate_way.Network.Queues.{Queued, fresh, Reach, here}
use ble_parking_gate_way.Network.Queues.Refines.{Reach-InOrder, Reach-simulated}
use ble_parking_gate_way.Network.Queues.Relayed.{ReachBytes, Reach-bytes}
use ble_parking_gate_way.Network.Queues.Turns.{IsBetween, IsKept, Reach-IsKept, unexpected_all}
use ble_parking_gate_way.Network.Queues.Connecting.{
  Shows, scan_begins, scan_answered, matches, cancels, scan_ends, connects, bonds,
}

-- What the controller tells `CentralModeThread` on the way to a link with the peripheral of an address:
-- first anything, as the status of the request to scan; then the advertisement that is looked for, the
-- end of the scan and the link, and before each of these any messages that are not it.
pub record Conversation (address : Bytes) (ms : List Bytes) : Type 0 where
  pub first : Bytes
  pub before : List Bytes
  pub advertised : Bytes
  pub between : List Bytes
  pub ended : Bytes
  pub after : List Bytes
  pub linked : Bytes
  pub whole : ms ≡ first ∷ (before ++ advertised ∷ (between ++ ended ∷ (after ++ linked ∷ [])))
  pub before_other : All (Shows is_advertised false) before
  pub advertised_shows : Shows is_advertised true advertised
  pub address_of : (b : Memory) → cells (memcpy b advertised) 8 6 ≡ address
  pub between_other : All (Shows is_scan_end false) between
  pub ended_shows : Shows is_scan_end true ended
  pub after_other : All (Shows is_established false) after
  pub linked_shows : Shows is_established true linked

-- What is written on the way to a link.
abbrev pub link_written : Bytes → List Bytes
link_written address =
    Loop.start.written
    ++ Commands.device_scan_req
      ∷ Commands.device_scan_cancel_req
      ∷ establish_bytes address
      ∷ bonding

written_in_order :
    (front : List Bytes) (a b c d : Bytes) (rest : List Bytes)
    → c ≡ d
    → (((front ++ a ∷ []) ++ b ∷ []) ++ c ∷ []) ++ rest ≡ front ++ a ∷ b ∷ d ∷ rest
written_in_order front a b c d rest same = rw same (simp append_assoc)

-- A state with a property, in which `CentralModeThread` has finished, `UartCmdRxThread` is between two packets, and nothing
-- was forwarded.
abbrev pub HasLink : (Queued → Type 0) → Bytes → Type 0
HasLink R address =
    (s : Queued) × R s
    × (s.net.central.progress ≡ Progress.spinning)
    × (s.net.central.written ≡ link_written address)
    × (s.pending Queue.command_resp ≡ [])
    × IsBetween s

module _ {rx_packet buffer_rx : Memory} {R : Queued → Type 0} (kept : IsKept R)
    (reached : (s : Queued) → R s → Reach rx_packet buffer_rx s) where
  few : {s : Queued} → R s → tally 4 0 s.net.gateway.devices ≤ 3
  few {s} r =
      let empty =
        tally_unconnected 4 0 s.net.gateway.devices
          (Reach-unconnected (Reach-simulated (reached s r))).0 in
      omega (arith, empty)

  pub Conversation-HasLink :
      {address : Bytes} {ms : List Bytes} {s : Queued}
      → R s
      → s.net.central ≡ Loop.start
      → s.pending Queue.command_resp ≡ ms
      → IsBetween s
      → Conversation address ms
      → HasLink R address
  Conversation-HasLink r begins waits between talk =
      let (s1, r1, at1) = scan_begins kept r begins (waits ∙ talk.whole) between in
      let (s2, r2, at2) = scan_answered kept r1 talk.first at1 (few r1) in
      let (s3, r3, at3) = unexpected_all kept talk.before advertisement talk.before_other r2 at2 in
      let (mac, same, (s4, r4, at4)) =
        matches kept r3 talk.advertised _ talk.advertised_shows talk.address_of at3 in
      let (s5, r5, at5) = cancels kept r4 at4 in
      let (s6, r6, at6) = unexpected_all kept talk.between scan_end talk.between_other r5 at5 in
      let (s7, r7, at7) = scan_ends kept r6 talk.ended talk.ended_shows at6 in
      let (s8, r8, at8) = connects kept r7 at7 in
      let (s9, r9, at9) = unexpected_all kept talk.after link talk.after_other r8 at8 in
      let (t, r10, spins, wrote, left, idle) = bonds kept r9 talk.linked talk.linked_shows at9 in
      (
        t,
        r10,
        spins,
        wrote
            ∙ written_in_order Loop.start.written Commands.device_scan_req
                Commands.device_scan_cancel_req (Commands.device_establish_link_req mac) _ bonding
                same,
        left,
        idle,
      )

-- The threads can connect, each message being taken once and in its order: from the program's start, on
-- any mix of stray bytes, events and command statuses whose messages are a conversation for an address,
-- where writes succeed, they can reach (for values that the functions without a `return` may leave
-- behind) a state in which `CentralModeThread` has finished, it has taken all the messages, what it has
-- written after its setup are the request to scan, the request to end the scan, the request to
-- connect to that address, and the bonding, `UartCmdRxThread` is between two packets, and nothing
-- was forwarded to the peers.
pub linked_in_order :
    (rx_packet buffer_rx : Memory) (address : Bytes) (ts : List Traffic)
    → All IsPlain ts
    → Conversation address (messages_on Queue.command_resp (delivered ts))
    → HasLink (Reach rx_packet buffer_rx) address
linked_in_order rx_packet buffer_rx address ts plain talk =
    let s0 = fresh rx_packet buffer_rx in
    let (m, read) = thread-delivered ts rx_packet s0.net.gateway plain in
    let (pending, r) =
      Holds-ok (ReachBytes rx_packet buffer_rx s0) _ read
        (Reach-bytes (wire (map item_of ts)) here) in
    Conversation-HasLink (Reach-IsKept rx_packet buffer_rx) (λ s r. r) r refl
      ((Reach-InOrder r).from_uart Queue.command_resp refl) ((m, refl), refl) talk
