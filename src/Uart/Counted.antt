-- ===== src/Uart/Counted.antt =====
-- What the loop of `UartCmdRxThread` in BLE_Scanner/src/UartCmdRxThread.c keeps of the connection
-- list and of `Slave_Count`, whatever bytes arrive.
use ble_parking_gate_way.Prelude.{
  ℕ, zero, suc, ◌≡◌, refl, ◌∙◌, Option, Bytes, Holds, Holds-ok, ok, true, false, ◌==◌, arith,
}
use ble_parking_gate_way.Drivers.{Message}
use ble_parking_gate_way.Connections.Count.{
  Devices, max_num_peripherals, disconnect, tally, upadate_disconnection-tally,
}
use ble_parking_gate_way.Receiver.{Receiver, Packet}
use ble_parking_gate_way.Router.{Gateway}
use ble_parking_gate_way.Uart.{handle, thread}
use ble_parking_gate_way.Uart.Kept.{
  is_uart_queue, sending, writing, disconnecting, handle-Holds, thread-Holds,
}

-- `Slave_Count` is the number of connected devices among the first five.
abbrev pub IsCounted : Gateway → Type 0
IsCounted g = g.slave_count ≡ tally max_num_peripherals 0 g.devices

-- Whatever bytes arrive that the thread handles without a fault, `Slave_Count` is in the end the number
-- of connected devices among the first five of the list, if it was that before.
pub thread-IsCounted :
    (bs : Bytes) (r : Receiver) (g : Gateway) {out : Receiver × Gateway}
    → thread r g bs ≡ ok out
    → IsCounted g
    → IsCounted out.1
thread-IsCounted bs r g handled h =
    Holds-ok (λ (out : Receiver × Gateway). IsCounted out.1) _ handled
      (thread-Holds IsCounted (λ g m mine h. h) (λ g pac h. h)
        (λ g n h. upadate_disconnection-tally (disconnect g.devices n)) bs r g h)

-- No device is connected.
pub record IsUnconnected (g : Gateway) : Type 0 where
  pub all_gone : (i : ℕ) → ((g.devices i).status == 1) ≡ false
  pub no_slaves : g.slave_count ≡ 0

pub tally_unconnected :
    (n i : ℕ) (devices : Devices)
    → ((j : ℕ) → ((devices j).status == 1) ≡ false)
    → tally n i devices ≡ 0
unfolding tally
tally_unconnected zero i devices h = refl
tally_unconnected (suc n) i devices h =
    rw (h i) (ground (arith, tally_unconnected n (suc i) devices h))

disconnect_unconnected :
    (devices : Devices) (n : ℕ)
    → ((j : ℕ) → ((devices j).status == 1) ≡ false)
    → (j : ℕ) → ((disconnect devices n j).status == 1) ≡ false
unfolding disconnect
disconnect_unconnected devices n h j = ground (arith, h j)

sending-IsUnconnected :
    (g : Gateway) (m : Message)
    → is_uart_queue m.0 ≡ true
    → IsUnconnected g
    → IsUnconnected (sending g m)
sending-IsUnconnected g m mine h = record { all_gone = h.all_gone; no_slaves = h.no_slaves }

writing-IsUnconnected :
    (g : Gateway) (pac : Bytes) → IsUnconnected g → IsUnconnected (writing g pac)
writing-IsUnconnected g pac h = record { all_gone = h.all_gone; no_slaves = h.no_slaves }

disconnecting-IsUnconnected :
    (g : Gateway) (n : ℕ) → IsUnconnected g → IsUnconnected (disconnecting g n)
disconnecting-IsUnconnected g n h =
    let gone = disconnect_unconnected g.devices n h.all_gone in
    record {
      all_gone = gone;
      no_slaves =
          upadate_disconnection-tally (disconnect g.devices n)
          ∙ tally_unconnected max_num_peripherals 0 (disconnect g.devices n) gone;
    }

-- The thread connects nobody: from a list in which no device is connected, as the list is
-- when the program starts, none is connected and `Slave_Count` is 0 for good, whatever bytes
-- arrive, the events of established links included.
pub thread-IsUnconnected :
    (bs : Bytes) (r : Receiver) (g : Gateway)
    → IsUnconnected g
    → Holds (λ out. IsUnconnected out.1) (thread r g bs)
thread-IsUnconnected =
    thread-Holds IsUnconnected sending-IsUnconnected writing-IsUnconnected
      disconnecting-IsUnconnected

pub handle-IsUnconnected :
    (g : Gateway) (p : Option Packet) → IsUnconnected g → Holds IsUnconnected (handle g p)
handle-IsUnconnected =
    handle-Holds IsUnconnected sending-IsUnconnected writing-IsUnconnected
      disconnecting-IsUnconnected
