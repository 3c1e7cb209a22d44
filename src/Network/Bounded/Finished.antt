-- ===== src/Network/Bounded/Finished.antt =====
-- What becomes of the program once `CentralModeThread` of BLE_Scanner/src/CentralModeThread.c has
-- connected and stopped in its last loop, over queues of limited size.
use ble_parking_gate_way.Prelude.{
  ℕ, ◌<◌, ◌≡◌, refl, ◌∙◌, ap, inr, List, [], ◌∷◌, ◌++◌, map, Bytes, Memory, length, length-append,
  arith,
}
use ble_parking_gate_way.Drivers.{Queue}
use ble_parking_gate_way.Receiver.Frames.{ready, wire, All}
use ble_parking_gate_way.Uart.{thread}
use ble_parking_gate_way.Uart.Log.{messages_on, messages_on-append}
use ble_parking_gate_way.Uart.Answers.{
  Traffic, stray, answer, command_status, item_of, IsPlain, delivered, thread-delivered,
}
use ble_parking_gate_way.Central.State.{Progress}
use ble_parking_gate_way.Start.{Thread}
use ble_parking_gate_way.Network.Queues
use ble_parking_gate_way.Network.Queues.Refines.{Reach-InOrder}
use ble_parking_gate_way.Network.Bounded.{Bounded, Later, begin}
use ble_parking_gate_way.Network.Bounded.Limits.{Later-Reach, Later-IsLimited}
use ble_parking_gate_way.Network.Bounded.Stream.{never_read}

-- All that such traffic makes is for `CentralModeThread`.
delivered_told :
    (ts : List Traffic)
    → length (messages_on Queue.command_resp (delivered ts)) ≡ length (delivered ts)
delivered_told [] = refl
delivered_told (stray b ∷ ts) = delivered_told ts
delivered_told (answer a status lo hi rest ∷ ts) = omega (arith, delivered_told ts)
delivered_told (command_status status lo hi rest ∷ ts) = omega (arith, delivered_told ts)

-- Once `CentralModeThread` has stopped, of more answers and statuses than the limit there is always a byte
-- whose turn has not ended.
pub finished_stops_reading :
    {limit : ℕ} {threads : List Thread} {rx_packet buffer_rx m : Memory} {whole : Bytes}
    {s t : Bounded} (ts : List Traffic) (more : Bytes)
    → Later limit threads (begin rx_packet buffer_rx whole) s
    → s.queued.net.central.progress ≡ Progress.spinning
    → s.queued.net.receiver ≡ ready m
    → All IsPlain ts
    → limit < length (delivered ts)
    → s.wire ≡ wire (map item_of ts) ++ more
    → Later limit threads s t
    → (b : ℕ) × (left : Bytes) × (t.wire ≡ b ∷ left ++ more)
finished_stops_reading {m} {s} ts more before stopped between plain over same l =
    let r = Later-Reach before Queues.Reach.here in
    let g = s.queued.net.gateway in
    let (receiver, read) = thread-delivered ts m g plain in
    let order = (Reach-InOrder r).from_uart Queue.command_resp refl in
    never_read Queue.command_resp (wire (map item_of ts)) more r
      (Later-IsLimited before (λ q. omega arith)) refl (inr (refl, stopped)) same
      (ap (λ receiver. thread receiver g (wire (map item_of ts))) between ∙ read)
      (omega (
        arith,
        over,
        delivered_told ts,
        ap length (messages_on-append Queue.command_resp g.sent (delivered ts)),
        length-append (messages_on Queue.command_resp g.sent)
            (messages_on Queue.command_resp (delivered ts)),
        ap length order,
        length-append (s.queued.taken Queue.command_resp) (s.queued.pending Queue.command_resp),
      ))
      l
