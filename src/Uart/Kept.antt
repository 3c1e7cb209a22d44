-- ===== src/Uart/Kept.antt =====
-- What the ladder of tests of `UartCmdRxThread` in BLE_Scanner/src/UartCmdRxThread.c, and the loop
-- around it, keep of the gateway: whatever a sent message, an acknowledgement and a terminated link
-- keep.
use ble_parking_gate_way.Prelude.{
  ℕ, ◌≡◌, refl, Bool, true, not, [], ◌∷◌, ◌++◌, Option, none, some, Bytes, Result, ok, fault, Holds,
  ◌>>=◌, Bool-cases, inl, inr, ◌==◌, ltb, u16, arith,
}
use ble_parking_gate_way.Drivers.{Queue, is_same, Message, mtext_size, sys_mq_send}
use ble_parking_gate_way.Connections.Count.{
  conn_device_list_size, disconnect, upadate_disconnection,
}
use ble_parking_gate_way.Receiver.{Receiver, Packet, receive}
use ble_parking_gate_way.Router.{
  Gateway, opcode_of, send_on, data_ack, route_command_status, route_link_terminated, route_pipe,
  route_written, route_write_request, route,
}
use ble_parking_gate_way.Uart.{handle, thread}

record Keeps (P : Gateway → Type 0) (o : Result Gateway) : Type 0 where
  holds : Holds P o

then-Holds :
    {A B : Type 0} (P : A → Type 0) (Q : B → Type 0) (o : Result A) (f : A → Result B)
    → ((a : A) → P a → Holds Q (f a))
    → Holds P o
    → Holds Q (o >>= f)
then-Holds P Q (ok a) f keeps h = keeps a h
then-Holds P Q (fault e) f keeps h = tt

-- The gateway with one message more, with one packet more, and without a connection.
abbrev pub sending : Gateway → Message → Gateway
sending g m = record g { sent = g.sent ++ m ∷ [] }

abbrev pub writing : Gateway → Bytes → Gateway
writing g pac = record g { written = g.written ++ pac ∷ [] }

abbrev pub disconnecting : Gateway → ℕ → Gateway
disconnecting g n = record g {
  devices = disconnect g.devices n;
  slave_count = upadate_disconnection (disconnect g.devices n);
}

-- The queues that the thread sends on.
abbrev pub is_uart_queue : Queue → Bool
is_uart_queue q = not (is_same q Queue.peer_device)

module _ (P : Gateway → Type 0)
    (sent : (g : Gateway) (m : Message) → is_uart_queue m.0 ≡ true → P g → P (sending g m))
    (written : (g : Gateway) (pac : Bytes) → P g → P (writing g pac))
    (disconnected : (g : Gateway) (n : ℕ) → P g → P (disconnecting g n)) where
  sent_on :
      (queue : Queue) (g : Gateway) (p : Packet) (f : Gateway → Gateway)
      → ((bytes : Bytes) → P (f (sending g (queue, bytes))))
      → Holds P (send_on (some queue) g p >>= λ t. ok (f t))
  unfolding send_on sys_mq_send
  sent_on queue g p f h = elim (Bool-cases (ltb mtext_size (u16 p.index))) [
    | inl over ↦ rw over tt
    | inr fits ↦ rw fits (h _)
  ]

  module _ (g : Gateway) (p : Packet) (h : P g) where
    kept : Keeps P (ok g)
    kept = record { holds = h }

    sends : (queue : Queue) → is_uart_queue queue ≡ true → Keeps P (send_on (some queue) g p)
    unfolding send_on sys_mq_send
    sends queue mine = elim (Bool-cases (ltb mtext_size (u16 p.index))) [
      | inl over ↦ rw over (record { holds = tt })
      | inr fits ↦ rw fits (record { holds = sent g _ mine h })
    ]

    sends_nowhere : Keeps P (send_on none g p)
    unfolding send_on sys_mq_send
    sends_nowhere = record { holds = tt }

    route_pipe-Keeps : Keeps P (route_pipe g p)
    unfolding route_pipe
    route_pipe-Keeps = ground (arith, kept, sends Queue.pipe_0 refl, sends_nowhere)

    route_command_status-Keeps : Keeps P (route_command_status g p)
    unfolding route_command_status
    route_command_status-Keeps =
        ground (arith, kept, sends Queue.command_resp refl, sends Queue.write_rsp refl)

    route_written-Keeps : Keeps P (route_written g p)
    unfolding route_written
    route_written-Keeps =
        ground
          (arith, kept, sends Queue.command_resp refl, sends Queue.ping_pkt refl, route_pipe-Keeps)

    route_write_request-Keeps : Keeps P (route_write_request g p)
    unfolding route_write_request data_ack
    route_write_request-Keeps = record {
      holds =
          then-Holds P P (route_written g p) (λ t. ok (data_ack (p.rx_packet 6) t))
            (λ t k. written t _ k) route_written-Keeps.holds;
    }

    route_link_terminated-Keeps : Keeps P (route_link_terminated g p)
    unfolding route_link_terminated
    route_link_terminated-Keeps =
        let n = opcode_of p.rx_packet in
        let marked = record g { devices = disconnect g.devices n } in
        let gone = disconnected g n h in
        elim (Bool-cases (ltb n conn_device_list_size)) [
          | inl inside ↦ elim (Bool-cases (p.rx_packet 8 == 0x3E)) [
            | inl told ↦
                rw (inside, told)
                  (record {
                    holds =
                        sent_on Queue.command_resp marked p
                          (λ t. record t { slave_count = upadate_disconnection t.devices })
                          (λ bytes. sent (disconnecting g n) (Queue.command_resp, bytes) refl gone);
                  })
            | inr silent ↦ rw (inside, silent) (record { holds = gone })
          ]
          | inr outside ↦ rw outside (record { holds = tt })
        ]

    route-Keeps : Keeps P (route g p)
    unfolding route
    route-Keeps = ground (
      arith,
      kept,
      sends Queue.command_resp refl,
      route_command_status-Keeps,
      route_link_terminated-Keeps,
      route_pipe-Keeps,
      route_write_request-Keeps,
    )

  pub handle-Holds : (g : Gateway) (p : Option Packet) → P g → Holds P (handle g p)
  unfolding handle
  handle-Holds g none h = h
  handle-Holds g (some p) h = (route-Keeps g p h).holds

  pub thread-Holds :
      (bs : Bytes) (r : Receiver) (g : Gateway) → P g → Holds (λ out. P out.1) (thread r g bs)
  unfolding thread
  thread-Holds [] r g h = h
  thread-Holds (b ∷ bs) r g h =
      let s = (receive r b).0 in
      then-Holds P (λ out. P out.1) (handle g (receive r b).1) (λ g'. thread s g' bs)
        (λ g' h'. thread-Holds bs s g' h') (handle-Holds g (receive r b).1 h)
