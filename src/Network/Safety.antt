-- ===== src/Network/Safety.antt =====
-- What holds of the threads of BLE_Scanner/src/UartCmdRxThread.c and CentralModeThread.c in every
-- state that they reach together, in whatever order they take their turns.
use ble_parking_gate_way.Prelude.{
  ℕ, ◌≤◌, ◌≡◌, ◌⊎◌, inl, inr, refl, ap, true, false, ◌==◌, List, [], ◌∷◌, ◌++◌, Bytes, Memory,
  memcpy, length, In, first, later, Holds-ok, arith,
}
use ble_parking_gate_way.Drivers.{Queue, Message}
use ble_parking_gate_way.Connections.Count.{tally}
use ble_parking_gate_way.Receiver.{receive}
use ble_parking_gate_way.Uart.Counted.{IsUnconnected, handle-IsUnconnected, tally_unconnected}
use ble_parking_gate_way.Central.State.{CentralState, Progress, Inputs}
use ble_parking_gate_way.Central.Loop
use ble_parking_gate_way.Central.Reach.{is_used, step-is_used}
use ble_parking_gate_way.Central.Scan.{scan_req_free}
use ble_parking_gate_way.Commands
use ble_parking_gate_way.Forward.{Replies, forward_msg}
use ble_parking_gate_way.Forward.Safe.{NoFault, forward_msg-NoFault, pipe_0000-Holds}
use ble_parking_gate_way.Network.{
  Network, Step, byte, central_turn, pipe, forward, begin, Reach, here, next,
}

-- What every step keeps.
pub record Inv (s : Network) : Type 0 where
  pub unconnected : IsUnconnected s.gateway
  pub used : is_used s.central.state ≡ true
  pub short : (m : Message) → In m s.forwarded → length m.1 ≤ 94

Inv-begin : (rx_packet buffer_rx : Memory) → Inv (begin rx_packet buffer_rx)
Inv-begin rx_packet buffer_rx = record {
  unconnected = record { all_gone = λ i. refl; no_slaves = refl };
  used = unfold Loop.start in refl;
  short = λ m h. elim h [ ];
}

pub In-append : {A : Type 0} {a : A} (xs : List A) (y : A) → In a (xs ++ y ∷ []) → In a xs ⊎ (y ≡ a)
In-append [] y (first e) = inr e
In-append [] y (later h) = elim h [ ]
In-append (x ∷ xs) y (first e) = inl (first e)
In-append (x ∷ xs) y (later h) = elim (In-append xs y h) [ inl i ↦ inl (later i) | inr e ↦ inr e ]

Step-Inv : {s t : Network} → Step s t → Inv s → Inv t
Step-Inv {s} (byte b e) inv = record {
  unconnected =
      Holds-ok IsUnconnected _ e
        (handle-IsUnconnected s.gateway (receive s.receiver b).1 inv.unconnected);
  used = inv.used;
  short = inv.short;
}
Step-Inv {s} (central_turn i may d) inv = record {
  unconnected = inv.unconnected;
  used = step-is_used s.central i inv.used;
  short = inv.short;
}
Step-Inv {s} (pipe buff forward_data_buff {sent} from e) inv = record {
  unconnected = inv.unconnected;
  used = inv.used;
  short = λ m h. elim (In-append s.forwarded sent h) [
    | inl old ↦ inv.short m old
    | inr same ↦
        rw (← same)
          (Holds-ok (λ (m : Message). length m.1 ≤ 94) _ e (pipe_0000-Holds _ forward_data_buff))
  ];
}
Step-Inv (forward buffer status replies from e) inv = record {
  unconnected = inv.unconnected;
  used = inv.used;
  short = inv.short;
}

Reach-Inv : {rx_packet buffer_rx : Memory} {s : Network} → Reach rx_packet buffer_rx s → Inv s
Reach-Inv here = Inv-begin _ _
Reach-Inv (next r st) = Step-Inv st (Reach-Inv r)

-- In every reachable state, whatever the controller sends and in whatever order the threads take
-- their turns: no connection is listed as connected, `Slave_Count` is 0, and `CentralModeThread` is
-- in one of the seven states that have a way from the start.
pub Reach-unconnected :
    {rx_packet buffer_rx : Memory} {s : Network}
    → Reach rx_packet buffer_rx s
    → ((i : ℕ) → ((s.gateway.devices i).status == 1) ≡ false)
      × (s.gateway.slave_count ≡ 0)
      × (is_used s.central.state ≡ true)
Reach-unconnected r =
    let inv = Reach-Inv r in (inv.unconnected.all_gone, inv.unconnected.no_slaves, inv.used)

-- In every reachable state, `Forward_MSG_Queue_Thread` handles any message on its queue without a
-- fault, whatever its arrays hold, whatever the connections' status reads and whatever replies come:
-- the messages of `pipe_0000_Thread` never overrun its packet buffers.
pub Reach-NoFault :
    {rx_packet buffer_rx : Memory} {s : Network}
    → Reach rx_packet buffer_rx s
    → (buffer : Memory) (status : ℕ → ℕ) (replies : Replies) {bytes : Bytes}
    → In (Queue.peer_device, bytes) s.forwarded
    → NoFault (
        forward_msg status s.gateway.slave_count
          (memcpy buffer bytes)
          (length bytes)
          replies
          s.sender)
Reach-NoFault {s} r buffer status replies {bytes} h =
    forward_msg-NoFault (memcpy buffer bytes) (length bytes) ((Reach-Inv r).short _ h) status
      s.gateway.slave_count replies s.sender

-- In every reachable state in which `CentralModeThread` is about to scan, its turn writes exactly one
-- scan request: the test for a full connection list never holds it back, since that list is
-- never filled.
pub Reach-scans :
    {rx_packet buffer_rx : Memory} {s : Network}
    → Reach rx_packet buffer_rx s
    → (i : Inputs) → i.devices ≡ s.gateway.devices
    → s.central.progress ≡ Progress.running
    → s.central.state ≡ CentralState.device_scan_req
    → (Loop.step s.central i).written ≡ s.central.written ++ Commands.device_scan_req ∷ []
Reach-scans {s} r i d running scanning = scan_req_free s.central i running scanning few
  where
    few : tally 4 0 i.devices ≤ 3
    few =
        let empty = tally_unconnected 4 0 s.gateway.devices (Reach-Inv r).unconnected.all_gone in
        omega (arith, ap (tally 4 0) d, empty)
