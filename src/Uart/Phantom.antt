-- ===== src/Uart/Phantom.antt =====
-- What the loop of `UartCmdRxThread` in BLE_Scanner/src/UartCmdRxThread.c makes of a UART that fails.
use ble_parking_gate_way.Prelude.{
  false, ◌≡◌, refl, ◌∙◌, ap, [], ◌∷◌, some, replicate, Memory, arith, Result, ok, fault, ◌>>=◌,
}
use ble_parking_gate_way.Receiver.{Receiver, Packet, run}
use ble_parking_gate_way.Receiver.Frames.{
  ready, fill, contents, event_bytes, cells-fill, run-event_bytes,
}
use ble_parking_gate_way.Router.{Gateway, route}
use ble_parking_gate_way.Uart.Batch.{route_all, thread-route_all}
use ble_parking_gate_way.Uart.Poll.{unread, loop, loop-thread}

last_packet :
    (o : Result Gateway) (r : Receiver)
    → ◌>>=◌ {B = Receiver × Gateway} (o >>= λ g'. ok g') (λ g'. ok (r, g'))
      ≡ ◌>>=◌ {B = Receiver × Gateway} o (λ g'. ok (r, g'))
last_packet (ok g) r = refl
last_packet (fault e) r = refl

-- Where the byte before was 0x04 and the receiver is idle, seven reads that fail make up a packet of
-- seven bytes 0x04, which the thread handles like any other.
pub phantom_packet :
    (m : Memory) (g : Gateway)
    → (p : Packet) × (contents p ≡ replicate 7 0x04)
      × (loop (some 0x04) (replicate 7 (false, unread)) (ready m) g
          ≡ (route g p >>= λ g'. ok (ready p.rx_packet, g')))
unfolding run route_all
phantom_packet m g =
    let bytes = event_bytes 0x04 (replicate 4 0x04) in
    let whole = run-event_bytes m 0x04 0x04 (0x04 ∷ 0x04 ∷ 0x04 ∷ []) [] in
    (
      record { rx_packet = fill m 0 bytes; index = 7 },
      cells-fill bytes m 0 (omega arith),
      loop-thread (replicate 7 (false, unread)) 0x04 (ready m) g
          ∙ thread-route_all (ready m) g bytes
          ∙ ap (λ out. route_all g out.1 >>= λ g'. ok (out.0, g')) whole
          ∙ last_packet (route g (record { rx_packet = fill m 0 bytes; index = 7 }))
              (ready (fill m 0 bytes)),
    )
