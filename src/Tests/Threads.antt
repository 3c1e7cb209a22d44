-- ===== src/Tests/Threads.antt =====
-- The threads of BLE_Scanner/src/UartCmdRxThread.c and CentralModeThread.c together, at concrete
-- inputs.
use ble_parking_gate_way.Prelude.{
  ℕ, ◌≡◌, refl, Bool, true, false, ◌==◌, List, [], ◌∷◌, ◌++◌, map, none, some, Bytes, memcpy,
  length, In, first, later, ok, arith,
}
use ble_parking_gate_way.Drivers.{Queue, sys_mq_send}
use ble_parking_gate_way.Connections.Count.{tally, disconnect, upadate_disconnection-tally}
use ble_parking_gate_way.Receiver.{Receiver, receive}
use ble_parking_gate_way.Receiver.Frames.{ready}
use ble_parking_gate_way.Router.Links.{ack_bytes}
use ble_parking_gate_way.Central.State.{Inputs}
use ble_parking_gate_way.Central.Loop
use ble_parking_gate_way.Central.Reach.{is_used}
use ble_parking_gate_way.Pipe.Relay.{forwarded}
use ble_parking_gate_way.Forward.{forward_msg}
use ble_parking_gate_way.Forward.Broadcast.{notification_of, write_of}
use ble_parking_gate_way.Forward.Safe.{NoFault}
use ble_parking_gate_way.Uart.{handle, thread}
use ble_parking_gate_way.Router.{Gateway, send_on, route_link_terminated, route}
use ble_parking_gate_way.Uart.Poll.{Poll, not_set, unread, got, heard, loop, loop-thread}
use ble_parking_gate_way.Uart.Counted.{IsCounted, thread-IsCounted}
use ble_parking_gate_way.Uart.Answers.{Traffic, stray, answer}
use ble_parking_gate_way.Router.Forwarding.{Answer}
use ble_parking_gate_way.Start.{main, ReachBy, ReachBy-Quiet}
use ble_parking_gate_way.Network.{Network, central_turn, failed, begin, zeroed, Reach}
use ble_parking_gate_way.Network.Safety.{Reach-unconnected, Reach-NoFault}
use ble_parking_gate_way.Network.Relayed.{Reach-relayed}
use ble_parking_gate_way.Tests.{zeros, full_list, gateway, terminated_link, other_terminated_link}

-- A byte of a packet is read, the next read fails, the rest is read, and the flag is set before another
-- byte is.
abbrev polls : List (Bool × Poll)
polls =
    map (λ (p : Poll). (false, p))
      (unread ∷ not_set ∷ map got (0xFF ∷ 0x04 ∷ 0x7F ∷ 0x06 ∷ 0x00 ∷ 0x00 ∷ []))
    ++ (true, got 0x04) ∷ []

loop-thread_example :
    loop (some 0x04) polls (ready zeros) gateway ≡ thread (ready zeros) gateway (heard 0x04 polls)
loop-thread_example = loop-thread polls 0x04 (ready zeros) gateway

all_connected : IsCounted gateway
unfolding tally
all_connected = refl

-- Two links of the list are terminated, with a stray byte between their events.
abbrev two_terminated : Bytes
two_terminated = terminated_link ++ 0x55 ∷ other_terminated_link

-- The thread handles them without a fault, and three of the first five are left.
both_handled :
    (out : Receiver × Gateway) × (thread (ready zeros) gateway two_terminated ≡ ok out)
    × (out.1.slave_count ≡ 3)
unfolding thread receive handle route route_link_terminated send_on sys_mq_send disconnect tally
both_handled =
    let left = disconnect (disconnect full_list 2) 4 in (_, refl, upadate_disconnection-tally left)

thread-IsCounted_example : IsCounted both_handled.0.1
thread-IsCounted_example =
    thread-IsCounted two_terminated (ready zeros) gateway both_handled.1 all_connected

abbrev value : Bytes
value = 0x41 ∷ 0x42 ∷ []

-- A turn in which the write succeeds and the queue yields nothing.
abbrev silent : ℕ → Inputs
silent write_result = record {
  write_result = write_result;
  message = none;
  devices = zeroed;
  residue = 1;
  led_idx = 0;
}

-- The state in which the peer's write is relayed.
abbrev Forwarded : Type 0
Forwarded =
    (s : Network) × Reach zeros zeros s
    × (s.forwarded ≡ (Queue.peer_device, forwarded 0x01 value) ∷ [])
    × (s.gateway.written ≡ ack_bytes 0x00 ∷ [])
    × (s.sender.written ≡ notification_of value ∷ write_of value ∷ [])

a_relay : Forwarded
a_relay =
    Reach-relayed zeros zeros zeros zeros zeros (λ idz. 0) 0 0 0 0x41 0x42 [] (omega arith) refl
      refl

Reach-unconnected_example :
    ((i : ℕ) → ((a_relay.0.gateway.devices i).status == 1) ≡ false)
    × (a_relay.0.gateway.slave_count ≡ 0)
    × (is_used a_relay.0.central.state ≡ true)
Reach-unconnected_example = Reach-unconnected a_relay.1

a_relay-forwarded : In (Queue.peer_device, forwarded 0x01 value) a_relay.0.forwarded
a_relay-forwarded = rw a_relay.2 (first refl)

Reach-NoFault_example : NoFault (
    forward_msg
      (λ idz. 1)
      a_relay.0.gateway.slave_count
      (memcpy zeros (forwarded 0x01 value))
      (length (forwarded 0x01 value))
      []
      a_relay.0.sender)
Reach-NoFault_example = Reach-NoFault a_relay.1 zeros (λ idz. 1) [] a_relay-forwarded

abbrev started : Network
started = record (begin zeros zeros) { central = Loop.step Loop.start (silent 5) }

-- A stray byte, and the end of a scan.
abbrev traffic : List Traffic
traffic = stray 0x55 ∷ answer Answer.device_discovery 0x30 0x00 0x00 (0x00 ∷ []) ∷ []

-- The state after the first turn of `CentralModeThread`, where both threads are created.
started-ReachBy : ReachBy (main 3 (λ thread. true)).threads zeros zeros started
unfolding main
started-ReachBy =
    ReachBy.next ReachBy.here (central_turn (silent 5) failed refl) (later (first refl))

ReachBy-Quiet_example : (started.forwarded ≡ []) × (started.sender.written ≡ [])
ReachBy-Quiet_example = ReachBy-Quiet 3 (λ thread. true) started-ReachBy
