-- ===== src/Network/Queues/Turns.antt =====
-- Turns of `CentralModeThread` in BLE_Scanner/src/CentralModeThread.c over queues that hold messages.
use ble_parking_gate_way.Prelude.{
  ℕ, ◌≡◌, refl, ◌∙◌, ap, sym, Bool, true, false, List, [], ◌∷◌, ◌++◌, Option, none, some, Bytes,
  Memory, memcpy, length, arith, drop,
}
use mathlib.Core.Path.{subst}
use ble_parking_gate_way.Receiver.Frames.{All, ready}
use ble_parking_gate_way.Drivers.{Queue, sys_mq_recv}
use ble_parking_gate_way.Central.State.{CentralState, Progress, Central, Inputs}
use ble_parking_gate_way.Central.Calls.{receive}
use ble_parking_gate_way.Central.Loop
use ble_parking_gate_way.Central.Asks.{asks}
use ble_parking_gate_way.Central.Wait.{Awaits, advertisement, scan_end, link, step_unexpected}
use ble_parking_gate_way.Network.Queues.{
  Queued, take_from, central_alone, central_takes, Reach, next,
}

-- The thread runs, in a state, with an address and what it has written.
pub record IsAt (state : CentralState) (mac : Memory) (written : List Bytes) (c : Central)
    : Type 0 where
  pub running : c.progress ≡ Progress.running
  pub there : c.state ≡ state
  pub aimed : c.mac ≡ mac
  pub so_far : c.written ≡ written

-- `UartCmdRxThread` waits for the first byte of a packet, and `pipe_0000_Thread` has forwarded nothing.
abbrev pub IsBetween : Queued → Type 0
IsBetween s = ((m : Memory) × (s.net.receiver ≡ ready m)) × (s.net.forwarded ≡ [])

-- `CentralModeThread` is there, messages wait for it, and `UartCmdRxThread` is between two packets.
pub record At (state : CentralState) (mac : Memory) (written waiting : List Bytes) (s : Queued)
    : Type 0 where
  pub central : IsAt state mac written s.net.central
  pub waits : s.pending Queue.command_resp ≡ waiting
  pub between : IsBetween s

-- A turn on the connection list as it is. The value that a function without `return` leaves behind is
-- an argument, and the index of the LED packet starts from 0.
abbrev pub input : Queued → ℕ → ℕ → Option Bytes → Inputs
input s written residue got = record {
  write_result = written;
  message = got;
  devices = s.net.gateway.devices;
  residue = residue;
  led_idx = 0;
}

-- The state once a turn has taken a message.
abbrev pub taken_by : Queued → Inputs → Queued
taken_by s i = record (take_from Queue.command_resp 1 s) {
  net = record s.net { central = Loop.step s.net.central i };
}

pub received :
    (c : Central) (s : Queued) (w residue : ℕ) (bytes : Bytes)
    → receive c (input s w residue (some bytes))
      ≡ record c { buffer = memcpy c.buffer bytes; size = length bytes }
unfolding receive sys_mq_recv
received c s w residue bytes = refl

pub asks_awaited :
    {state : CentralState} {test : Memory → Bool} (c : Central) (i : Inputs)
    → Awaits state test
    → c.progress ≡ Progress.running
    → c.state ≡ state
    → asks c i ≡ true
unfolding asks
asks_awaited c i advertisement r s = rw (r, s) refl
asks_awaited c i scan_end r s = rw (r, s) refl
asks_awaited c i link r s = rw (r, s) refl

-- A property of states that each turn of `CentralModeThread` keeps.
pub record IsKept (R : Queued → Type 0) : Type 0 where
  pub alone :
      {s : Queued} (i : Inputs)
      → i.message ≡ none
      → i.devices ≡ s.net.gateway.devices
      → R s
      → R (record s { net = record s.net { central = Loop.step s.net.central i } })
  pub takes :
      {s : Queued} (i : Inputs) {bytes : Bytes} {rest : List Bytes}
      → asks s.net.central i ≡ true
      → s.pending Queue.command_resp ≡ bytes ∷ rest
      → i.message ≡ some bytes
      → i.devices ≡ s.net.gateway.devices
      → R s
      → R (taken_by s i)

module _ {R : Queued → Type 0} (kept : IsKept R) where
  -- A state with a property that is reached.
  abbrev pub Reaches : (Queued → Type 0) → Type 0
  Reaches P = (s : Queued) × R s × P s

  -- A turn that takes a message, by what it makes of the thread.
  pub takes :
      {state : CentralState} {mac : Memory} {written rest : List Bytes} {s : Queued} (i : Inputs)
      (d : Central) {bytes : Bytes}
      → asks s.net.central i ≡ true
      → i.message ≡ some bytes
      → i.devices ≡ s.net.gateway.devices
      → s.pending Queue.command_resp ≡ bytes ∷ rest
      → Loop.step s.net.central i ≡ d
      → IsAt state mac written d
      → IsBetween s
      → R s
      → Reaches (At state mac written rest)
  takes {s} i d asked got same_list waits same at between r = (
    taken_by s i,
    kept.takes i asked waits got same_list r,
    record {
      central = subst (IsAt _ _ _) (sym same) at;
      waits = ap (drop 1) waits;
      between = between;
    },
  )

  -- A turn that takes none.
  pub alone :
      {state : CentralState} {mac : Memory} {written waiting : List Bytes} {s : Queued} (i : Inputs)
      (d : Central)
      → i.message ≡ none
      → i.devices ≡ s.net.gateway.devices
      → s.pending Queue.command_resp ≡ waiting
      → Loop.step s.net.central i ≡ d
      → IsAt state mac written d
      → IsBetween s
      → R s
      → Reaches (At state mac written waiting)
  alone {s} i d silent same_list waits same at between r = (
    record s { net = record s.net { central = Loop.step s.net.central i } },
    kept.alone i silent same_list r,
    record { central = subst (IsAt _ _ _) (sym same) at; waits = waits; between = between },
  )

  unexpected :
      {state : CentralState} {test : Memory → Bool} {mac : Memory} {written rest : List Bytes}
      {s : Queued} (bytes : Bytes)
      → Awaits state test
      → ((b : Memory) → test (memcpy b bytes) ≡ false)
      → R s
      → At state mac written (bytes ∷ rest) s
      → Reaches (At state mac written rest)
  unexpected {test} {s} bytes awaits other r at =
      let i = input s 0 3 (some bytes) in
      let c = s.net.central in
      let same =
        step_unexpected c i awaits at.central.running at.central.there
          (ap (λ (d : Central). test d.buffer) (received c s 0 3 bytes) ∙ other c.buffer)
          (omega arith)
        ∙ received c s 0 3 bytes in
      takes i (record c { buffer = memcpy c.buffer bytes; size = length bytes })
        (asks_awaited c i awaits at.central.running at.central.there) refl refl at.waits same
        (record {
          running = at.central.running;
          there = at.central.there;
          aimed = at.central.aimed;
          so_far = at.central.so_far;
        })
        at.between r

  -- Any number of messages that are not waited for.
  pub unexpected_all :
      {state : CentralState} {test : Memory → Bool} {mac : Memory} {written rest : List Bytes}
      (ms : List Bytes) {s : Queued}
      → Awaits state test
      → All (λ bytes. (b : Memory) → test (memcpy b bytes) ≡ false) ms
      → R s
      → At state mac written (ms ++ rest) s
      → Reaches (At state mac written rest)
  unexpected_all [] {s} awaits others r at = (s, r, at)
  unexpected_all (bytes ∷ ms) awaits (other, others) r at =
      let (t, r', at') = unexpected bytes awaits other r at in
      unexpected_all ms awaits others r' at'

-- Being reached is kept.
pub Reach-IsKept : (rx_packet buffer_rx : Memory) → IsKept (Reach rx_packet buffer_rx)
Reach-IsKept rx_packet buffer_rx = record {
  alone = λ i silent same_list r. next r (central_alone i silent same_list);
  takes = λ i asked waits got same_list r. next r (central_takes i asked waits got same_list);
}
