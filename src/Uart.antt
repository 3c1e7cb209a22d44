-- ===== src/Uart.antt =====
-- The body of the loop of `UartCmdRxThread` in BLE_Scanner/src/UartCmdRxThread.c on a byte, the receiver
-- and the router together, and on the bytes of turns at which `SysExitFlag` is not set; it stops at a
-- fault. Poll is the loop with its guard, `select` and `read`.
pub mod Batch
pub mod Poll
pub mod Phantom
pub mod Kept
pub mod Log
pub mod Counted
pub mod Quiet
pub mod Answers
use ble_parking_gate_way.Prelude.{
  List, [], ◌∷◌, Option, none, some, Bytes, Result, ok, fault, ◌>>=◌,
}
use ble_parking_gate_way.Receiver.{Receiver, Packet, receive}
use ble_parking_gate_way.Router.{Gateway, route}

-- What follows a byte: nothing, or the ladder of tests on the packet that it completes.
unfoldable pub handle : Gateway → Option Packet → Result Gateway
handle g none = ok g
handle g (some p) = route g p

-- The turns that handle these bytes.
unfoldable pub thread : Receiver → Gateway → Bytes → Result (Receiver × Gateway)
thread r g [] = ok (r, g)
thread r g (b ∷ bs) = let (s, p) = receive r b in handle g p >>= λ g'. thread s g' bs
