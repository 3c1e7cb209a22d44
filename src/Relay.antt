-- ===== src/Relay.antt =====
-- The way of a peer's packet through the threads of BLE_Scanner/src/UartCmdRxThread.c: from the
-- UART over `UartCmdRxThread`, `pipe_0000_Thread` and `Forward_MSG_Queue_Thread` to the UART.
use ble_parking_gate_way.Prelude.{
  ℕ, suc, ◌+◌, ◌≤◌, ◌<◌, ◌≡◌, refl, ◌∙◌, ap, sym, false, ◌&&◌, [], ◌∷◌, ◌++◌, append-nil, Bytes,
  Memory, memcpy, cells, length, drop, get_or, cells_known, u8, arith, ok, ◌>>=◌, ◌==◌, inl,
}
use mathlib.Core.Path.{ap₂}
use ble_parking_gate_way.Hci.{make16ofxy}
use ble_parking_gate_way.Drivers.{Queue}
use ble_parking_gate_way.Receiver.{Packet, run}
use ble_parking_gate_way.Receiver.Frames.{
  ready, fill, contents, event_bytes, cells-fill, run-event_bytes,
}
use ble_parking_gate_way.Router.{Gateway, route, data_ack}
use ble_parking_gate_way.Router.Forwarding.{IsVendorEvent, passed}
use ble_parking_gate_way.Router.Links.{ack_bytes, piped, route-write_data, route-notification}
use ble_parking_gate_way.Pipe.{pipe_0000}
use ble_parking_gate_way.Pipe.Relay.{forwarded, pipe_0000-write, pipe_0000-notification}
use ble_parking_gate_way.Forward.{Sender, finished, wrote, forward_msg}
use ble_parking_gate_way.Forward.Broadcast.{
  notification_of, write_of, forward_write, forward_dropped,
}

-- The packet that the receiver hands on for an event.
abbrev received : Memory → ℕ → Bytes → Packet
received m code payload = record {
  rx_packet = fill m 0 (event_bytes code payload);
  index = u8 (3 + length payload);
}

run-received :
    (m : Memory) (code b : ℕ) (bs : Bytes)
    → (run (ready m) (event_bytes code (b ∷ bs))).1 ≡ received m code (b ∷ bs) ∷ []
run-received m code b bs =
    let e : u8 (4 + length bs) ≡ u8 (3 + suc (length bs)) = omega arith in
    ap (λ bytes. (run (ready m) bytes).1) (sym (append-nil (event_bytes code (b ∷ bs))))
    ∙ (ap (λ out. out.1) (run-event_bytes m code b bs [])
        ∙ (unfold run in
            ap
              (λ index.
                record { rx_packet = fill m 0 (event_bytes code (b ∷ bs)); index = index } ∷ [])
              e))

module _ (m : Memory) (code : ℕ) (payload : Bytes) (fits : length payload ≤ 97) where
  received-index : (received m code payload).index ≡ length (event_bytes code payload)
  received-index = omega arith

  cells-received :
      cells (received m code payload).rx_packet 0 (length (event_bytes code payload))
      ≡ event_bytes code payload
  cells-received = cells-fill (event_bytes code payload) m 0 (omega arith)

  contents-received : contents (received m code payload) ≡ event_bytes code payload
  contents-received = rw received-index cells-received

  received_at :
      (j : ℕ)
      → j < length (event_bytes code payload)
      → (received m code payload).rx_packet j ≡ get_or (event_bytes code payload) j 0
  received_at = cells_known (event_bytes code payload) _ cells-received

-- The payload of a vendor event of connection 0: the event's low byte, a status, and the rest.
abbrev vendor_payload : ℕ → ℕ → Bytes → Bytes
vendor_payload event status rest = event ∷ 0x05 ∷ status ∷ 0x00 ∷ 0x00 ∷ rest

received-IsVendorEvent :
    (m : Memory) (event status : ℕ) (rest : Bytes)
    → length rest ≤ 92
    → IsVendorEvent
        (received m 0xFF (vendor_payload event status rest)).rx_packet
        (make16ofxy 0x05 event)
received-IsVendorEvent m event status rest fits =
    let at = received_at m 0xFF (vendor_payload event status rest) (omega arith) in
    record {
      type_byte = at 0 (omega arith);
      code_byte = at 1 (omega arith);
      event_bytes = rw (at 3 (omega arith), at 4 (omega arith));
      not_features = rw (at 6 (omega arith), at 7 (omega arith));
      not_data_length = rw (at 6 (omega arith), at 7 (omega arith));
    }

-- A write of `value` to the handle 0x0003, and a notification of it, as the controller reports
-- them.
abbrev write_part : ℕ → ℕ → Bytes → Bytes
write_part signature kind value = (length value + 4) ∷ signature ∷ kind ∷ 0x03 ∷ 0x00 ∷ value

abbrev notification_part : ℕ → ℕ → Bytes → Bytes
notification_part attr_lo attr_hi value = (length value + 2) ∷ attr_lo ∷ attr_hi ∷ value

abbrev pub write_payload : ℕ → ℕ → ℕ → Bytes → Bytes
write_payload status signature kind value =
    vendor_payload 0x12 status (write_part signature kind value)

abbrev notification_payload : ℕ → ℕ → ℕ → Bytes → Bytes
notification_payload status attr_lo attr_hi value =
    vendor_payload 0x1B status (notification_part attr_lo attr_hi value)

abbrev pub peer_write : ℕ → ℕ → ℕ → Bytes → Bytes
peer_write status signature kind value =
    event_bytes 0xFF (write_payload status signature kind value)

abbrev pub peer_notification : ℕ → ℕ → ℕ → Bytes → Bytes
peer_notification status attr_lo attr_hi value =
    event_bytes 0xFF (notification_payload status attr_lo attr_hi value)

acked_sent :
    (g : Gateway) (p : Packet) (bytes : Bytes)
    → contents p ≡ bytes
    → ((data_ack 0x00 (passed Queue.pipe_0 g p)).sent ≡ g.sent ++ (Queue.pipe_0, bytes) ∷ [])
      × ((data_ack 0x00 (passed Queue.pipe_0 g p)).written ≡ g.written ++ ack_bytes 0x00 ∷ [])
unfolding data_ack
acked_sent g p bytes same = (ap (λ b. g.sent ++ (Queue.pipe_0, b) ∷ []) same, refl)

route-received :
    (m : Memory) (g : Gateway) (status signature kind first second : ℕ) (rest : Bytes)
    → length rest ≤ 85
    → (first == 0x30 && second == 0x31) ≡ false
    → (first == 0x50 && second == 0x42) ≡ false
    → (let p = received m 0xFF (write_payload status signature kind (first ∷ second ∷ rest)) in
        route g p ≡ ok (data_ack 0x00 (passed Queue.pipe_0 g p)))
route-received m g status signature kind first second rest fits plain no_ping =
    let value = first ∷ second ∷ rest in
    let payload = write_payload status signature kind value in
    let p = received m 0xFF payload in
    let at = received_at m 0xFF payload (omega arith) in
    let e13 : p.rx_packet 13 ≡ first = at 13 (omega arith) in
    let e14 : p.rx_packet 14 ≡ second = at 14 (omega arith) in
    route-write_data g p
      (inl (received-IsVendorEvent m 0x12 status (write_part signature kind value) (omega arith)))
      (omega arith) (at 11 (omega arith)) (at 12 (omega arith))
      (ap₂ (λ a b. a == 0x30 && b == 0x31) e13 e14 ∙ plain)
      (ap₂ (λ a b. a == 0x50 && b == 0x42) e13 e14 ∙ no_ping)
    ∙ ap (λ handle. piped handle g p >>= (λ t. ok (data_ack handle t))) (at 6 (omega arith))

module _ (m buff forward_data_buff buffer : Memory) (g : Gateway) (status : ℕ → ℕ)
    (s : Sender) where
  -- A write of the peer on connection 0 to the attribute handle 0x0003, of 2 to 87 bytes that begin
  -- neither as a command (0x30 0x31) nor as a ping (0x50 0x42), goes all the way through the threads: the receiver hands on one packet, the router sends its
  -- bytes to pipe 0 and acknowledges the write, the pipe forwards exactly the value, and while no
  -- peer is counted the value is written to the UART twice, as a notification and as an
  -- attribute write, and nothing else.
  pub peer_write-relayed :
      (state signature kind first second : ℕ) (rest : Bytes)
      → length rest ≤ 85
      → (first == 0x30 && second == 0x31) ≡ false
      → (first == 0x50 && second == 0x42) ≡ false
      → (let value = first ∷ second ∷ rest in
          let bytes = peer_write state signature kind value in
          (p : Packet) × (g' : Gateway) × ((run (ready m) bytes).1 ≡ p ∷ [])
          × (route g p ≡ ok g')
          × (g'.sent ≡ g.sent ++ (Queue.pipe_0, bytes) ∷ [])
          × (g'.written ≡ g.written ++ ack_bytes 0x00 ∷ [])
          × (pipe_0000 (memcpy buff bytes) forward_data_buff
              ≡ ok (Queue.peer_device, forwarded 0x01 value))
          × (forward_msg status 0 (memcpy buffer (forwarded 0x01 value)) (length value + 3) [] s
              ≡ finished [] (wrote (write_of value) (wrote (notification_of value) s))))
  peer_write-relayed state signature kind first second rest fits plain no_ping =
      let value = first ∷ second ∷ rest in
      let payload = write_payload state signature kind value in
      let p = received m 0xFF payload in
      let (told, acked) = acked_sent g p _ (contents-received m 0xFF payload (omega arith)) in
      (
        p,
        data_ack 0x00 (passed Queue.pipe_0 g p),
        run-received m 0xFF 0x12 (drop 1 payload),
        route-received m g state signature kind first second rest fits plain no_ping,
        told,
        acked,
        pipe_0000-write (length payload) state 0x03 0x00 value buff forward_data_buff signature kind
            (omega arith),
        forward_write status value buffer [] s (omega arith),
      )

  -- A notification on connection 0, of at most 85 bytes, goes through the threads as well: the
  -- receiver hands on one packet, the router sends its bytes to pipe 0, the pipe forwards
  -- exactly the value; but there it ends, and nothing is written to the UART, whatever peers are
  -- connected.
  pub peer_notification-dropped :
      (state attr_lo attr_hi : ℕ) (value : Bytes) (slave_count size : ℕ)
      → length value ≤ 85
      → (let bytes = peer_notification state attr_lo attr_hi value in
          (p : Packet) × (g' : Gateway) × ((run (ready m) bytes).1 ≡ p ∷ [])
          × (route g p ≡ ok g')
          × (g'.sent ≡ g.sent ++ (Queue.pipe_0, bytes) ∷ [])
          × (g'.written ≡ g.written)
          × (pipe_0000 (memcpy buff bytes) forward_data_buff
              ≡ ok (Queue.peer_device, forwarded 0x00 value))
          × (forward_msg status slave_count (memcpy buffer (forwarded 0x00 value)) size [] s
              ≡ finished [] s))
  peer_notification-dropped state attr_lo attr_hi value slave_count size fits =
      let payload = notification_payload state attr_lo attr_hi value in
      let p = received m 0xFF payload in
      let at = received_at m 0xFF payload (omega arith) in
      (
        p,
        passed Queue.pipe_0 g p,
        run-received m 0xFF 0x1B (drop 1 payload),
        route-notification g p
              (received-IsVendorEvent m 0x1B state (notification_part attr_lo attr_hi value)
                (omega arith))
              (omega arith)
            ∙ ap (λ handle. piped handle g p) (at 6 (omega arith)),
        ap (λ b. g.sent ++ (Queue.pipe_0, b) ∷ []) (contents-received m 0xFF payload (omega arith)),
        refl,
        pipe_0000-notification (length payload) state attr_lo attr_hi value buff forward_data_buff
            (omega arith),
        forward_dropped status slave_count size 0x00 value buffer [] s refl,
      )
