-- ===== src/Uart/Quiet.antt =====
-- Where the loop of `UartCmdRxThread` in BLE_Scanner/src/UartCmdRxThread.c is sure not to fault.
use ble_parking_gate_way.Prelude.{
  ℕ, ◌≤◌, ◌≡◌, ◌≢◌, refl, ◌∙◌, ap, List, [], ◌∷◌, map, Bytes, Memory, length, cells_known, u8,
  arith, ok, ◌>>=◌, ◌+◌,
}
use ble_parking_gate_way.Receiver.{Receiver, Packet, ble_evt_pkt, ble_asd_pkt, run}
use ble_parking_gate_way.Receiver.Frames.{
  ready, fill, Item, noise, event, wire, event_bytes, All, cells-fill, run-event_bytes, run_noise,
}
use ble_parking_gate_way.Router.{Gateway}
use ble_parking_gate_way.Router.Total.{Succeeds, route-Succeeds}
use ble_parking_gate_way.Uart.{thread}
use ble_parking_gate_way.Uart.Batch.{route_all, thread-route_all}

-- What may stand on the wire: a stray byte, or an event of connection 0 by its code, its event's
-- two bytes, a status, and what follows the connection.
pub data Report : Type 0 where
  stray : ℕ → Report
  report : ℕ → ℕ → ℕ → ℕ → Bytes → Report

abbrev pub item_of : Report → Item
item_of (stray b) = noise b
item_of (report code lo hi status rest) = event code (lo ∷ hi ∷ status ∷ 0x00 ∷ 0x00 ∷ rest)

abbrev pub IsShort : Report → Type 0
IsShort (stray b) = (b ≢ ble_evt_pkt) × (b ≢ ble_asd_pkt)
IsShort (report code lo hi status rest) = length rest ≤ 92

-- The packet of such an event.
abbrev IsSafe : Packet → Type 0
IsSafe p = (p.index ≤ 100) × (p.rx_packet 6 ≡ 0) × (p.rx_packet 7 ≡ 0)

quiet-IsSafe :
    (m : Memory) (code a b c : ℕ) (rest : Bytes)
    → length rest ≤ 92
    → IsSafe (record {
      rx_packet = fill m 0 (event_bytes code (a ∷ b ∷ c ∷ 0 ∷ 0 ∷ rest));
      index = u8 (4 + length (b ∷ c ∷ 0 ∷ 0 ∷ rest));
    })
quiet-IsSafe m code a b c rest fits =
    let bytes = event_bytes code (a ∷ b ∷ c ∷ 0 ∷ 0 ∷ rest) in
    let known = cells_known bytes (fill m 0 bytes) (cells-fill bytes m 0 (omega arith)) in
    (omega arith, known 6 (omega arith), known 7 (omega arith))

run-wire-IsSafe :
    (rs : List Report) (m : Memory)
    → All IsShort rs
    → All IsSafe (run (ready m) (wire (map item_of rs))).1
run-wire-IsSafe [] m h = unfold run in tt
run-wire-IsSafe (stray b ∷ rs) m (h, t) =
    rw (run_noise m b (wire (map item_of rs)) h.0 h.1) (run-wire-IsSafe rs m t)
run-wire-IsSafe (report code lo hi status rest ∷ rs) m (h, t) =
    let bytes = event_bytes code (lo ∷ hi ∷ status ∷ 0x00 ∷ 0x00 ∷ rest) in
    rw (run-event_bytes m code lo (hi ∷ status ∷ 0x00 ∷ 0x00 ∷ rest) (wire (map item_of rs)))
      (quiet-IsSafe m code lo hi status rest h, run-wire-IsSafe rs (fill m 0 bytes) t)

route_all-Succeeds : (ps : List Packet) (g : Gateway) → All IsSafe ps → Succeeds (route_all g ps)
unfolding route_all
route_all-Succeeds [] g h = record { end = g; reached = refl }
route_all-Succeeds (p ∷ ps) g ((fits, lo, hi), t) =
    let first = route-Succeeds g p fits lo hi in
    let rest = route_all-Succeeds ps first.end t in
    record { end = rest.end; reached = rw first.reached rest.reached }

-- On any mix of stray bytes and events of connection 0 with at most 97 bytes of payload, the
-- thread does not fault, from the idle receiver on and whatever the connection list holds.
pub thread-quiet :
    (rs : List Report) (m : Memory) (g : Gateway)
    → All IsShort rs
    → (out : Receiver × Gateway) × (thread (ready m) g (wire (map item_of rs)) ≡ ok out)
thread-quiet rs m g h =
    let bytes = wire (map item_of rs) in
    let done = route_all-Succeeds (run (ready m) bytes).1 g (run-wire-IsSafe rs m h) in
    (
      ((run (ready m) bytes).0, done.end),
      thread-route_all (ready m) g bytes
          ∙ ap (λ o. o >>= λ g'. ok ((run (ready m) bytes).0, g')) done.reached,
    )
