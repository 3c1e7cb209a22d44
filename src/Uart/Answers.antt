-- ===== src/Uart/Answers.antt =====
-- What the loop of `UartCmdRxThread` in BLE_Scanner/src/UartCmdRxThread.c delivers to
-- `CentralModeThread`.
use ble_parking_gate_way.Prelude.{
  ℕ, ◌+◌, ◌%◌, ◌/◌, ◌≤◌, ◌≡◌, ◌≢◌, refl, ◌∙◌, ap, sym, false, List, [], ◌∷◌, ◌++◌, append_assoc,
  append-nil, map, Bytes, Memory, length, cells_known, u8, arith, ok, ◌==◌,
}
use ble_parking_gate_way.Hci.{make16ofxy}
use ble_parking_gate_way.Hci.Event
use ble_parking_gate_way.Drivers.{Queue, Message}
use ble_parking_gate_way.Receiver.{Packet, ble_evt_pkt, ble_asd_pkt, run}
use ble_parking_gate_way.Receiver.Frames.{
  ready, fill, contents, Item, noise, event, wire, event_bytes, All, cells-fill, run-event_bytes,
  run_noise, IsReceivable, run-ready,
}
use ble_parking_gate_way.Router.{Gateway, opcode_of, route}
use ble_parking_gate_way.Router.Forwarding.{
  IsVendorEvent, passed, Answer, answer_event, is_kept_opcode, route-answer, route-command_status,
}
use ble_parking_gate_way.Uart.{thread}
use ble_parking_gate_way.Uart.Batch.{route_all, thread-route_all}

-- What may stand on the wire: a stray byte, one of the events that are sent on, with its status, the
-- two bytes behind that, and the rest, or a command's status, with the bytes of its opcode in the place of
-- these two.
pub data Traffic : Type 0 where
  stray : ℕ → Traffic
  answer : Answer → ℕ → ℕ → ℕ → Bytes → Traffic
  command_status : ℕ → ℕ → ℕ → Bytes → Traffic

-- A vendor event's payload.
abbrev pub event_payload : ℕ → ℕ → ℕ → ℕ → Bytes → Bytes
event_payload number status lo hi rest = number % 256 ∷ number / 256 ∷ status ∷ lo ∷ hi ∷ rest

abbrev pub answer_payload : Answer → ℕ → ℕ → ℕ → Bytes → Bytes
answer_payload a status lo hi rest = event_payload (answer_event a) status lo hi rest

abbrev pub status_payload : ℕ → ℕ → ℕ → Bytes → Bytes
status_payload status lo hi rest = event_payload Event.command_status status lo hi rest

abbrev pub item_of : Traffic → Item
item_of (stray b) = noise b
item_of (answer a status lo hi rest) = event 0xFF (answer_payload a status lo hi rest)
item_of (command_status status lo hi rest) = event 0xFF (status_payload status lo hi rest)

abbrev pub IsPlain : Traffic → Type 0
IsPlain (stray b) = (b ≢ ble_evt_pkt) × (b ≢ ble_asd_pkt)
IsPlain (answer a status lo hi rest) =
    (length rest ≤ 92)
    × ((make16ofxy hi lo == 0xFC06) ≡ false)
    × ((make16ofxy hi lo == 0xFC21) ≡ false)
IsPlain (command_status status lo hi rest) =
    (length rest ≤ 92)
    × ((make16ofxy hi lo == 0xFC06) ≡ false)
    × ((make16ofxy hi lo == 0xFC21) ≡ false)
    × (is_kept_opcode (make16ofxy hi lo) ≡ false)

-- The messages that such traffic makes.
abbrev pub delivered : List Traffic → List Message
delivered [] = []
delivered (stray b ∷ ts) = delivered ts
delivered (answer a status lo hi rest ∷ ts) =
    (Queue.command_resp, event_bytes 0xFF (answer_payload a status lo hi rest)) ∷ delivered ts
delivered (command_status status lo hi rest ∷ ts) =
    (Queue.command_resp, event_bytes 0xFF (status_payload status lo hi rest)) ∷ delivered ts

event_bytes_lem :
    (a : Answer) → make16ofxy (answer_event a / 256) (answer_event a % 256) ≡ answer_event a
event_bytes_lem Answer.mtu_request = refl
event_bytes_lem _ = refl

module _ (m : Memory) (number : ℕ) (splits : make16ofxy (number / 256) (number % 256) ≡ number)
    (status lo hi : ℕ) (rest : Bytes) (fits : length rest ≤ 92) where
  abbrev bytes : Bytes
  bytes = event_bytes 0xFF (event_payload number status lo hi rest)

  abbrev packet : Packet
  packet = record {
    rx_packet = fill m 0 bytes;
    index = u8 (4 + length (number / 256 ∷ status ∷ lo ∷ hi ∷ rest));
  }

  packet-index : packet.index ≡ length bytes
  packet-index = omega arith

  contents-packet : contents packet ≡ bytes
  contents-packet = rw packet-index (cells-fill bytes m 0 (omega arith))

  packet-opcode : opcode_of packet.rx_packet ≡ make16ofxy hi lo
  packet-opcode =
      let at = cells_known bytes (fill m 0 bytes) (cells-fill bytes m 0 (omega arith)) in
      rw (at 6 (omega arith), at 7 (omega arith)) refl

  packet-IsVendorEvent :
      (make16ofxy hi lo == 0xFC06) ≡ false
      → (make16ofxy hi lo == 0xFC21) ≡ false
      → IsVendorEvent packet.rx_packet number
  packet-IsVendorEvent h k =
      let at = cells_known bytes (fill m 0 bytes) (cells-fill bytes m 0 (omega arith)) in
      record {
        type_byte = at 0 (omega arith);
        code_byte = at 1 (omega arith);
        event_bytes = rw (at 3 (omega arith), at 4 (omega arith)) splits;
        not_features = rw (at 6 (omega arith), at 7 (omega arith)) h;
        not_data_length = rw (at 6 (omega arith), at 7 (omega arith)) k;
      }

  -- Where the packet is sent on, the loop goes on with its bytes on the queue.
  route_all-packet :
      (g : Gateway) (later : Bytes) (ms : List Message)
      → route g packet ≡ ok (passed Queue.command_resp g packet)
      → route_all (passed Queue.command_resp g packet) (run (ready (fill m 0 bytes)) later).1
        ≡ ok (record g { sent = (passed Queue.command_resp g packet).sent ++ ms })
      → route_all g (run (ready m) (bytes ++ later)).1
        ≡ ok (record g { sent = g.sent ++ (Queue.command_resp, bytes) ∷ ms })
  unfolding route_all
  route_all-packet g later ms sent rest_run =
      rw (run-event_bytes m 0xFF (number % 256) (number / 256 ∷ status ∷ lo ∷ hi ∷ rest) later) (
        rw sent (
          rest_run
          ∙ ap (λ out. ok (record g { sent = out })) (append_assoc g.sent _ ms)
          ∙ ap (λ b. ok (record g { sent = g.sent ++ (Queue.command_resp, b) ∷ ms }))
              contents-packet))

route_all-delivered :
    (ts : List Traffic) (m : Memory) (g : Gateway)
    → All IsPlain ts
    → route_all g (run (ready m) (wire (map item_of ts))).1
      ≡ ok (record g { sent = g.sent ++ delivered ts })
unfolding route_all
route_all-delivered [] m g h =
    unfold run in ap (λ sent. ok (record g { sent = sent })) (sym (append-nil g.sent))
route_all-delivered (stray b ∷ ts) m g (h, t) =
    rw (run_noise m b (wire (map item_of ts)) h.0 h.1) (route_all-delivered ts m g t)
route_all-delivered (answer a status lo hi rest ∷ ts) m g ((fits, h, k), t) =
    let splits = event_bytes_lem a in
    let p = packet m (answer_event a) splits status lo hi rest fits in
    let sent =
      route-answer a g p (packet-IsVendorEvent m (answer_event a) splits status lo hi rest fits h k)
        (omega arith) in
    route_all-packet m (answer_event a) splits status lo hi rest fits g (wire (map item_of ts))
      (delivered ts) sent
      (route_all-delivered ts (fill m 0 (bytes m (answer_event a) splits status lo hi rest fits))
        (passed Queue.command_resp g p) t)
route_all-delivered (command_status status lo hi rest ∷ ts) m g ((fits, h, k, passes), t) =
    let number = Event.command_status in
    let p = packet m number refl status lo hi rest fits in
    let sent =
      route-command_status g p (packet-IsVendorEvent m number refl status lo hi rest fits h k)
        (ap is_kept_opcode (packet-opcode m number refl status lo hi rest fits) ∙ passes)
        (omega arith) in
    route_all-packet m number refl status lo hi rest fits g (wire (map item_of ts)) (delivered ts)
      sent
      (route_all-delivered ts (fill m 0 (bytes m number refl status lo hi rest fits))
        (passed Queue.command_resp g p) t)

plain-IsReceivable : (ts : List Traffic) → All IsPlain ts → All IsReceivable (map item_of ts)
plain-IsReceivable [] h = tt
plain-IsReceivable (stray b ∷ ts) (h, t) = (h, plain-IsReceivable ts t)
plain-IsReceivable (answer a status lo hi rest ∷ ts) ((fits, h, k), t) =
    ((omega arith, omega (arith, fits)), plain-IsReceivable ts t)
plain-IsReceivable (command_status status lo hi rest ∷ ts) ((fits, h, k, passes), t) =
    ((omega arith, omega (arith, fits)), plain-IsReceivable ts t)

pub thread-delivered :
    (ts : List Traffic) (m : Memory) (g : Gateway)
    → All IsPlain ts
    → (m' : Memory) × (thread (ready m) g (wire (map item_of ts))
        ≡ ok (ready m', record g { sent = g.sent ++ delivered ts }))
thread-delivered ts m g h =
    let (m', idle) = run-ready (map item_of ts) m (plain-IsReceivable ts h) in
    (
      m',
      thread-route_all (ready m) g (wire (map item_of ts))
          ∙ rw (route_all-delivered ts m g h)
              (ap (λ r. ok (r, record g { sent = g.sent ++ delivered ts })) idle),
    )
