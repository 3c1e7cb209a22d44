-- ===== src/Tests/Stopped.antt =====
-- A link with a peripheral, and what follows it, over queues of limited size, at concrete inputs.
use ble_parking_gate_way.Prelude.{
  refl, List, [], ◌∷◌, ◌++◌, map, Bytes, In, first, later, replicate, arith,
}
use ble_parking_gate_way.Receiver.Frames.{All, wire}
use ble_parking_gate_way.Uart.Answers.{Traffic, item_of, IsPlain}
use ble_parking_gate_way.Start.{central_mode_thread, main}
use ble_parking_gate_way.Network.Queues.Linked.{HasLink}
use ble_parking_gate_way.Network.Running.{Running, Later, between_turns, begin}
use ble_parking_gate_way.Network.Running.Promises.{
  HasUnread, IsLater, connects, stops_when_connected,
}
use ble_parking_gate_way.Tests.{zeros}
use ble_parking_gate_way.Tests.Limits.{started, started-uart, both_started}
use ble_parking_gate_way.Tests.Link.{
  status_of_command, on_the_wire, on_the_wire-IsPlain, on_the_wire-Conversation,
}

started-central : In central_mode_thread started.threads
unfolding main
started-central = later (first refl)

abbrev address : Bytes
address = 1 ∷ 2 ∷ 3 ∷ 4 ∷ 5 ∷ 6 ∷ []

-- Some statuses, and a byte behind them.
abbrev statuses : List Traffic
statuses = replicate 8 status_of_command

abbrev behind : Bytes
behind = wire (map item_of statuses) ++ 0x55 ∷ []

abbrev Linked : Type 0
Linked =
    HasLink
      (IsLater 7 started (begin zeros zeros (wire (map item_of on_the_wire) ++ behind)) behind)
      address

connects_example : Linked
connects_example =
    connects 7 started zeros zeros address on_the_wire behind both_started started-uart
      started-central on_the_wire-IsPlain on_the_wire-Conversation (omega arith)

-- The state that is reached.
linked : Linked
linked =
    connects 7 started zeros zeros address on_the_wire behind both_started started-uart
      started-central on_the_wire-IsPlain on_the_wire-Conversation (omega arith)

statuses-IsPlain : All IsPlain statuses
statuses-IsPlain =
    let plain : IsPlain status_of_command = (omega arith, refl, refl, refl) in
    (plain, (plain, (plain, (plain, (plain, (plain, (plain, (plain, tt))))))))

abbrev then_statuses : Running
then_statuses = between_turns (record { queued = linked.0; wire = behind })

stops_when_connected_example : HasUnread then_statuses (0x55 ∷ [])
stops_when_connected_example =
    stops_when_connected statuses (0x55 ∷ []) linked.1.0 linked.2 linked.5.0.1 statuses-IsPlain
      (omega arith) refl Later.here
