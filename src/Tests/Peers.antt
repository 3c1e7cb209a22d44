-- ===== src/Tests/Peers.antt =====
-- The packets for the peers and the controller, at concrete inputs: BLE_Scanner/src/BLEParameters.c,
-- CentralModeThread.c and the two forwarding threads of UartCmdRxThread.c.
use ble_parking_gate_way.Prelude.{
  ◌≤◌, ◌≡◌, refl, ltb, if◌then◌else◌, true, false, [], ◌∷◌, some, Bytes, Memory, memcpy, replicate,
  arith, ok,
}
use ble_parking_gate_way.Drivers.{Queue}
use ble_parking_gate_way.Connections.Count.{Devices, max_num_peripherals, tally}
use ble_parking_gate_way.Commands.{set_param}
use ble_parking_gate_way.Parameters.{conn_scan_int, code, request_bytes}
use ble_parking_gate_way.Parameters.Requests.{request_bytes-set_param}
use ble_parking_gate_way.Pipe.{pipe_0000}
use ble_parking_gate_way.Pipe.Relay.{forwarded}
use ble_parking_gate_way.Forward.{
  Sender, cloud, counted, finished, wrote, retry, retry_count, forward_msg,
}
use ble_parking_gate_way.Forward.Retry.{
  success, busy, disconnected, lost, replies_of, progress, attempts, retry-attempts, retry_finishes,
  retry_cloud_waits,
}
use ble_parking_gate_way.Forward.Broadcast.{notification_of, write_of, forward_write, successes}
use ble_parking_gate_way.Forward.Stale.{write_then_cloud, stale_statuses}
use ble_parking_gate_way.Receiver.{Packet, run}
use ble_parking_gate_way.Receiver.Frames.{ready}
use ble_parking_gate_way.Router.{Gateway, route}
use ble_parking_gate_way.Router.Links.{ack_bytes}
use ble_parking_gate_way.Relay.{
  peer_write, peer_notification, peer_write-relayed, peer_notification-dropped,
}
use ble_parking_gate_way.Tests.{zeros, full_list, empty_list, gateway}

request_bytes-set_param_example :
    request_bytes (code conn_scan_int) 0x1F40 zeros ≡ set_param (code conn_scan_int) 0x1F40
request_bytes-set_param_example = request_bytes-set_param conn_scan_int 0x1F40 zeros

abbrev value : Bytes
value = 0x41 ∷ 0x42 ∷ []

-- A write that announces 92 bytes.
abbrev long_write : Memory
long_write = memcpy zeros (0x04 ∷ 0xFF ∷ 0x60 ∷ 0x12 ∷ 0x05 ∷ 0x00 ∷ 0x00 ∷ 0x00 ∷ 92 ∷ [])

abbrev sender : Sender
sender = record { buffer_rx = zeros; size_rx = 0; written = [] }

retry-attempts_example :
    progress (retry counted value (replies_of (busy [] ∷ lost ∷ success [] ∷ [])) 0 sender)
    ≡ some (true, replicate 3 value)
retry-attempts_example = retry-attempts value (busy [] ∷ lost ∷ success [] ∷ []) 3 0 sender refl

retry_finishes_example :
    (progress (
        retry counted value
          (replies_of (busy [] ∷ busy [] ∷ disconnected [] ∷ busy [] ∷ []))
          0
          sender)
      ≡ some (true, replicate 3 value))
    × (attempts retry_count (busy [] ∷ busy [] ∷ disconnected [] ∷ busy [] ∷ []) ≤ retry_count)
retry_finishes_example =
    retry_finishes value (busy [] ∷ busy [] ∷ disconnected [] ∷ busy [] ∷ []) sender refl
      (omega arith)

retry_cloud_waits_example :
    progress (retry cloud value (replies_of (busy [] ∷ busy [] ∷ [])) 0 sender)
    ≡ some (false, replicate 3 value)
retry_cloud_waits_example = retry_cloud_waits value (busy [] ∷ busy [] ∷ []) sender refl

forward_write_example :
    forward_msg (λ idz. 0) 0 (memcpy zeros (forwarded 0x01 value)) 5 [] sender
    ≡ finished [] (wrote (write_of value) (wrote (notification_of value) sender))
forward_write_example = forward_write (λ idz. 0) value zeros [] sender (omega arith)

all_connected : tally max_num_peripherals 0 full_list ≡ 5
unfolding tally
all_connected = refl

peer_write-relayed_example :
    (p : Packet) × (g' : Gateway) × ((run (ready zeros) (peer_write 0 0 0 value)).1 ≡ p ∷ [])
    × (route gateway p ≡ ok g')
    × (g'.sent ≡ (Queue.pipe_0, peer_write 0 0 0 value) ∷ [])
    × (g'.written ≡ ack_bytes 0x00 ∷ [])
    × (pipe_0000 (memcpy zeros (peer_write 0 0 0 value)) zeros
        ≡ ok (Queue.peer_device, forwarded 0x01 value))
    × (forward_msg (λ idz. 0) 0 (memcpy zeros (forwarded 0x01 value)) 5 [] sender
        ≡ finished [] (wrote (write_of value) (wrote (notification_of value) sender)))
peer_write-relayed_example =
    peer_write-relayed zeros zeros zeros zeros gateway (λ idz. 0) sender 0 0 0 0x41 0x42 []
      (omega arith) refl refl

peer_notification-dropped_example :
    (p : Packet) × (g' : Gateway) × ((run (ready zeros) (peer_notification 0 0x0C 0x00 value)).1
      ≡ p ∷ [])
    × (route gateway p ≡ ok g')
    × (g'.sent ≡ (Queue.pipe_0, peer_notification 0 0x0C 0x00 value) ∷ [])
    × (g'.written ≡ [])
    × (pipe_0000 (memcpy zeros (peer_notification 0 0x0C 0x00 value)) zeros
        ≡ ok (Queue.peer_device, forwarded 0x00 value))
    × (forward_msg (λ idz. 1) 5 (memcpy zeros (forwarded 0x00 value)) 5 [] sender
        ≡ finished [] sender)
peer_notification-dropped_example =
    peer_notification-dropped zeros zeros zeros zeros gateway (λ idz. 1) sender 0 0x0C 0x00 value 5
      5 (omega arith)

-- The first two of the list are connected.
abbrev two_connected : Devices
two_connected i = if ltb i 2 then full_list i else empty_list i

two_connected-tally : tally max_num_peripherals 0 two_connected ≡ 2
unfolding tally
two_connected-tally = refl

stale_statuses_example :
    progress (
      write_then_cloud two_connected
        (λ idz. 0)
        1
        zeros
        zeros
        value
        value
        (successes ([] ∷ [] ∷ []))
        sender)
    ≡ some (
      true,
      notification_of value ∷ write_of value ∷ notification_of value ∷ notification_of value ∷ [],
    )
stale_statuses_example =
    stale_statuses two_connected (λ idz. 0) 1 zeros zeros value value [] [] sender (omega arith)
      (omega arith) two_connected-tally
