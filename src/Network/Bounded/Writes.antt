-- ===== src/Network/Bounded/Writes.antt =====
-- What a peer's writes do to the program that `main` of BLE_Scanner/src/VVDNBLEMeshStack.c starts, over
-- queues of limited size.
use ble_parking_gate_way.Prelude.{
  ℕ, zero, suc, ◌≤◌, ◌≡◌, refl, ◌∙◌, ap, sym, Bool, false, ◌&&◌, ◌==◌, [], ◌∷◌, ◌++◌, append_assoc,
  append-nil, Bytes, Memory, drop, length, replicate, length-replicate, In, arith, ok, ◌>>=◌,
}
use ble_parking_gate_way.Drivers.{Queue, Message}
use ble_parking_gate_way.Receiver.{Receiver, run}
use ble_parking_gate_way.Receiver.Frames.{ready, fill, run-event_bytes}
use ble_parking_gate_way.Router.{Gateway}
use ble_parking_gate_way.Uart.{thread}
use ble_parking_gate_way.Uart.Log.{messages_on, length-messages_on}
use ble_parking_gate_way.Relay.{peer_write, peer_write-relayed, write_payload}
use ble_parking_gate_way.Router.Links.{ack_bytes}
use ble_parking_gate_way.Start.{Thread, uart_cmd_rx_thread, main}
use ble_parking_gate_way.Network
use ble_parking_gate_way.Network.Relayed.{one_packet}
use ble_parking_gate_way.Network.Bounded.{Bounded, Later, begin}
use ble_parking_gate_way.Network.Queues
use ble_parking_gate_way.Network.Bounded.Room.{Fits, reads_all}
use ble_parking_gate_way.Network.Bounded.Unread.{unread-IsAbandoned}
use ble_parking_gate_way.Network.Bounded.Stream.{thread-append, never_read}

-- The same bytes, again and again.
abbrev pub repeated : ℕ → Bytes → Bytes
repeated zero bs = []
repeated (suc n) bs = bs ++ repeated n bs

all_piped :
    (bytes : Bytes) (n : ℕ)
    → length (messages_on Queue.pipe_0 (replicate n (Queue.pipe_0, bytes))) ≡ n
all_piped bytes zero = refl
all_piped bytes (suc n) = ap suc (all_piped bytes n)

module _ (state signature kind a b : ℕ) (rest : Bytes) (fits : length rest ≤ 85)
    (plain : (a == 0x30 && b == 0x31) ≡ false) (no_ping : (a == 0x50 && b == 0x42) ≡ false) where
  abbrev pub write : Bytes
  write = peer_write state signature kind (a ∷ b ∷ rest)

  pub idle_again : (m : Memory) → (run (ready m) write).0 ≡ ready (fill m 0 write)
  idle_again m =
      ap (λ bs. (run (ready m) bs).0) (sym (append-nil write))
      ∙ (ap (λ out. out.0)
            (run-event_bytes m 0xFF 0x12
              (drop 1 (write_payload state signature kind (a ∷ b ∷ rest))) [])
          ∙ (unfold run in refl))

  -- What a write, and any number of them, make of the gateway.
  abbrev Told : ℕ → Gateway → Gateway → Type 0
  Told n g g' =
      (g'.sent ≡ g.sent ++ replicate n (Queue.pipe_0, write))
      × (g'.written ≡ g.written ++ replicate n (ack_bytes 0x00))

  one_write :
      (m : Memory) (g : Gateway)
      → (g' : Gateway) × (thread (ready m) g write ≡ ok (ready (fill m 0 write), g')) × Told 1 g g'
  one_write m g =
      let s = (Network.begin m m).sender in
      let (p, g', cut, routed, told, acked, piped, served) =
        peer_write-relayed m m m m g (λ idz. 0) s state signature kind a b rest fits plain
          no_ping in
      (
        g',
        one_packet (ready m) g g' write p cut routed ∙ ap (λ r. ok (r, g')) (idle_again m),
        (told, acked),
      )

  writes-Told :
      (n : ℕ) (m : Memory) (g : Gateway)
      → (out : Receiver × Gateway) × (thread (ready m) g (repeated n write) ≡ ok out)
        × Told n g out.1
  writes-Told zero m g =
      ((ready m, g), unfold thread in refl, (sym (append-nil g.sent), sym (append-nil g.written)))
  writes-Told (suc n) m g =
      let (g', first, (told, acked)) = one_write m g in
      let (out, others, (all_told, all_acked)) = writes-Told n (fill m 0 write) g' in
      (
        out,
        thread-append write (repeated n write) (ready m) g
            ∙ ap (λ o. o >>= λ mid. thread mid.0 mid.1 (repeated n write)) first
            ∙ others,
        (
          all_told
              ∙ ap (λ sent. sent ++ replicate n (Queue.pipe_0, write)) told
              ∙ append_assoc g.sent _ _,
          all_acked
              ∙ ap (λ written. written ++ replicate n (ack_bytes 0x00)) acked
              ∙ append_assoc g.written _ _,
        ),
      )

  -- Of `limit + 1` writes there is always a byte whose turn has not ended.
  pub writes_stop_reading :
      (limit opened : ℕ) (created : Thread → Bool) {rx_packet buffer_rx : Memory} {t : Bounded}
      (more : Bytes)
      → Later limit
          (main opened created).threads
          (begin rx_packet buffer_rx (repeated (suc limit) write ++ more))
          t
      → (byte : ℕ) × (left : Bytes) × (t.wire ≡ byte ∷ left ++ more)
  writes_stop_reading limit opened created {rx_packet} {buffer_rx} more l =
      let start = Network.begin rx_packet buffer_rx in
      let (out, read, (told, acked)) = writes-Told (suc limit) rx_packet start.gateway in
      let count =
        ap (λ sent. length (messages_on Queue.pipe_0 sent)) told ∙ all_piped write (suc limit) in
      never_read Queue.pipe_0 (repeated (suc limit) write) more Queues.Reach.here (λ q. omega arith)
        refl (unread-IsAbandoned opened created Queue.pipe_0 start.central refl) refl read
        (omega (arith, count)) l

  -- The turns of `limit` writes can all end.
  pub writes_read :
      (limit opened : ℕ) (created : Thread → Bool) (rx_packet buffer_rx : Memory) (more : Bytes)
      → In uart_cmd_rx_thread (main opened created).threads
      → (t : Bounded) × Later limit
          (main opened created).threads
          (begin rx_packet buffer_rx (repeated limit write ++ more))
          t
        × (t.wire ≡ more)
        × (t.queued.net.gateway.written ≡ replicate limit (ack_bytes 0x00))
  writes_read limit opened created rx_packet buffer_rx more mine =
      let start = Network.begin rx_packet buffer_rx in
      let (out, read, (told, acked)) = writes-Told limit rx_packet start.gateway in
      let fits : Fits limit (λ q. []) out.1 = λ q own.
        (let few = length-messages_on q (replicate limit (Queue.pipe_0, write)) in
          omega (
            arith,
            ap (λ sent. length (messages_on q sent)) told,
            few,
            length-replicate {A = Message} limit (Queue.pipe_0, write),
          )) in
      let (pending, l) =
        reads_all (repeated limit write) more Queues.Reach.here mine refl read fits in
      (_, l, refl, acked)
