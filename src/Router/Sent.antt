-- ===== src/Router/Sent.antt =====
-- What `UartCmdRxThread` of BLE_Scanner/src/UartCmdRxThread.c may do to the queues with a packet.
use ble_parking_gate_way.Prelude.{
  ℕ, ◌≤◌, ◌≡◌, ◌⊎◌, inl, inr, refl, Bool, true, false, [], ◌∷◌, ◌++◌, Option, none, some, arith,
  ltb, ◌==◌, if◌then◌else◌, Result, ok, fault, ◌>>=◌, ◌∙◌,
}
use mathlib.Core.Path.{subst}
use ble_parking_gate_way.Drivers.{Queue, mtext_size, sys_mq_send}
use ble_parking_gate_way.Connections.Count.{
  conn_device_list_size, disconnect, upadate_disconnection,
}
use ble_parking_gate_way.Receiver.{Packet}
use ble_parking_gate_way.Receiver.Frames.{contents}
use ble_parking_gate_way.Router.{
  Gateway, opcode_of, send_on, data_ack, route_command_status, route_link_terminated, route_pipe,
  route_written, route_write_request, route, pipe_0_id, pipe_1_id, pipe_2_id, pipe_3_id,
}
use ble_parking_gate_way.Router.Forwarding.{send_on_ok}

-- At most one message was sent, and that is the packet, byte for byte; or the code faulted.
abbrev Once : Gateway → Packet → Result Gateway → Type 0
Once g p (fault e) = Unit
Once g p (ok g') =
    (g'.sent ≡ g.sent) ⊎ ((queue : Queue) × (g'.sent ≡ g.sent ++ (queue, contents p) ∷ []))

record SendsOnce (g : Gateway) (p : Packet) (o : Result Gateway) : Type 0 where
  once : Once g p o

module _ (g : Gateway) (p : Packet) where
  either :
      (b : Bool) (x y : Result Gateway)
      → SendsOnce g p x
      → SendsOnce g p y
      → SendsOnce g p (if b then x else y)
  either true x y h k = h
  either false x y h k = k

  kept : SendsOnce g p (ok g)
  kept = record { once = inl refl }

  sends : (queue : Option Queue) → p.index ≤ mtext_size → SendsOnce g p (send_on queue g p)
  sends none fits = unfold send_on sys_mq_send in record { once = tt }
  sends (some queue) fits = rw (send_on_ok queue g p fits) (record { once = inr (queue, refl) })

  Once-after :
      (o : Result Gateway) (f : Gateway → Gateway)
      → ((t : Gateway) → (f t).sent ≡ t.sent)
      → Once g p o
      → Once g p (o >>= λ t. ok (f t))
  Once-after (fault e) f keeps h = tt
  Once-after (ok t) f keeps (inl same) = inl (keeps t ∙ same)
  Once-after (ok t) f keeps (inr more) = inr (more.0, keeps t ∙ more.1)

  after :
      (o : Result Gateway) (f : Gateway → Gateway)
      → ((t : Gateway) → (f t).sent ≡ t.sent)
      → SendsOnce g p o
      → SendsOnce g p (o >>= λ t. ok (f t))
  after o f keeps h = record { once = Once-after o f keeps h.once }

  module _ (fits : p.index ≤ mtext_size) where
    route_pipe-SendsOnce : SendsOnce g p (route_pipe g p)
    unfolding route_pipe
    route_pipe-SendsOnce = ground (
      arith,
      kept,
      sends pipe_0_id fits,
      sends pipe_1_id fits,
      sends pipe_2_id fits,
      sends pipe_3_id fits,
    )

    route_command_status-SendsOnce : SendsOnce g p (route_command_status g p)
    unfolding route_command_status
    route_command_status-SendsOnce =
        ground
          (arith, kept, sends (some Queue.command_resp) fits, sends (some Queue.write_rsp) fits)

    route_written-SendsOnce : SendsOnce g p (route_written g p)
    unfolding route_written
    route_written-SendsOnce = ground (
      arith,
      kept,
      sends (some Queue.command_resp) fits,
      sends (some Queue.ping_pkt) fits,
      route_pipe-SendsOnce,
    )

    data_ack-sent : (handle : ℕ) (t : Gateway) → (data_ack handle t).sent ≡ t.sent
    unfolding data_ack
    data_ack-sent handle t = refl

    route_write_request-SendsOnce : SendsOnce g p (route_write_request g p)
    unfolding route_write_request
    route_write_request-SendsOnce =
        after (route_written g p) (data_ack (p.rx_packet 6)) (data_ack-sent (p.rx_packet 6))
          route_written-SendsOnce

    route_link_terminated-SendsOnce : SendsOnce g p (route_link_terminated g p)
    unfolding route_link_terminated
    route_link_terminated-SendsOnce =
        let marked = record g { devices = disconnect g.devices (opcode_of p.rx_packet) } in
        let told : SendsOnce g p (
            if p.rx_packet 8 == 0x3E
            then send_on (some Queue.command_resp) marked p
            else ok marked) =
          either (p.rx_packet 8 == 0x3E) _ _
            (record {
              once =
                  rw (send_on_ok Queue.command_resp marked p fits) (inr (Queue.command_resp, refl));
            })
            (record { once = inl refl }) in
        either (ltb (opcode_of p.rx_packet) conn_device_list_size) _ _
          (after _ (λ t. record t { slave_count = upadate_disconnection t.devices }) (λ t. refl)
            told)
          (record { once = tt })

    Once-of : (o : Result Gateway) {g' : Gateway} → o ≡ ok g' → Once g p o → Once g p (ok g')
    Once-of o e h = subst (Once g p) e h

    any_route : SendsOnce g p (route g p)
    unfolding route
    any_route = ground (
      arith,
      kept,
      sends (some Queue.command_resp) fits,
      route_command_status-SendsOnce,
      route_link_terminated-SendsOnce,
      route_pipe-SendsOnce,
      route_write_request-SendsOnce,
    )

    -- Whatever a packet of at most 100 bytes holds, where the thread handles it without a fault, it
    -- sends nothing, or it sends one message, and that is the packet, byte for byte.
    pub route-sends_once :
        {g' : Gateway}
        → route g p ≡ ok g'
        → (g'.sent ≡ g.sent) ⊎ ((queue : Queue) × (g'.sent ≡ g.sent ++ (queue, contents p) ∷ []))
    route-sends_once handled = Once-of _ handled any_route.once
