-- ===== src/Router/Total.antt =====
-- Where `UartCmdRxThread` of BLE_Scanner/src/UartCmdRxThread.c handles a packet without a fault.
use ble_parking_gate_way.Prelude.{
  ◌≤◌, ◌≡◌, refl, ap, Bool, true, false, some, arith, ltb, ◌==◌, if◌then◌else◌, Result, ok, ◌>>=◌,
}
use ble_parking_gate_way.Drivers.{Queue, mtext_size}
use ble_parking_gate_way.Connections.Count.{
  conn_device_list_size, disconnect, upadate_disconnection,
}
use ble_parking_gate_way.Receiver.{Packet}
use ble_parking_gate_way.Router.{
  Gateway, opcode_of, send_on, data_ack, route_command_status, route_link_terminated, route_pipe,
  route_written, route_write_request, route,
}
use ble_parking_gate_way.Router.Forwarding.{passed, send_on_ok}

-- An outcome that is no fault.
pub record Succeeds (o : Result Gateway) : Type 0 where
  pub end : Gateway
  pub reached : o ≡ ok end

either : (b : Bool) (x y : Result Gateway) → Succeeds x → Succeeds y → Succeeds (if b then x else y)
either true x y h k = h
either false x y h k = k

after : (o : Result Gateway) (f : Gateway → Gateway) → Succeeds o → Succeeds (o >>= λ t. ok (f t))
after o f h = record { end = f h.end; reached = ap (λ o'. o' >>= λ t. ok (f t)) h.reached }

module _ (g : Gateway) (p : Packet) (fits : p.index ≤ mtext_size) where
  kept : Succeeds (ok g)
  kept = record { end = g; reached = refl }

  sends : (queue : Queue) → Succeeds (send_on (some queue) g p)
  sends queue = record { end = passed queue g p; reached = send_on_ok queue g p fits }

  route_command_status-Succeeds : Succeeds (route_command_status g p)
  unfolding route_command_status
  route_command_status-Succeeds =
      ground (arith, kept, sends Queue.command_resp, sends Queue.write_rsp)

  module _ (lo : p.rx_packet 6 ≡ 0) (hi : p.rx_packet 7 ≡ 0) where
    route_pipe-Succeeds : Succeeds (route_pipe g p)
    unfolding route_pipe
    route_pipe-Succeeds = ground (arith, sends Queue.pipe_0)

    route_written-Succeeds : Succeeds (route_written g p)
    unfolding route_written
    route_written-Succeeds =
        ground (arith, kept, sends Queue.command_resp, sends Queue.ping_pkt, route_pipe-Succeeds)

    route_write_request-Succeeds : Succeeds (route_write_request g p)
    unfolding route_write_request
    route_write_request-Succeeds =
        after (route_written g p) (data_ack (p.rx_packet 6)) route_written-Succeeds

    route_link_terminated-Succeeds : Succeeds (route_link_terminated g p)
    unfolding route_link_terminated
    route_link_terminated-Succeeds =
        let marked = record g { devices = disconnect g.devices (opcode_of p.rx_packet) } in
        let told =
          either (p.rx_packet 8 == 0x3E) (send_on (some Queue.command_resp) marked p) (ok marked)
            (record {
              end = passed Queue.command_resp marked p;
              reached = send_on_ok Queue.command_resp marked p fits;
            })
            (record { end = marked; reached = refl }) in
        let inside : ltb (opcode_of p.rx_packet) conn_device_list_size ≡ true = rw (lo, hi) in
        rw inside (after _ (λ t. record t { slave_count = upadate_disconnection t.devices }) told)

    -- A packet of at most 100 bytes whose bytes 6 and 7, the connection of most events, are 0 is
    -- always handled without a fault, whatever else it holds.
    pub route-Succeeds : Succeeds (route g p)
    unfolding route
    route-Succeeds = ground (
      arith,
      kept,
      sends Queue.command_resp,
      route_command_status-Succeeds,
      route_link_terminated-Succeeds,
      route_pipe-Succeeds,
      route_write_request-Succeeds,
    )
