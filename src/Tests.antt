-- ===== src/Tests.antt =====
-- The theorems at concrete inputs, and the test data they share.
pub mod Uart
pub mod Scanner
pub mod Peers
pub mod Leds
pub mod Link
pub mod Limits
mod Stopped
pub mod Threads
pub mod Cloud
pub mod Drivers
pub mod Edges
use ble_parking_gate_way.Prelude.{ℕ, [], ◌∷◌, Bytes, Memory, memcpy, length}
use ble_parking_gate_way.Connections.Count.{Device, Devices}
use ble_parking_gate_way.Receiver.{Packet}
use ble_parking_gate_way.Router.{Gateway}

abbrev pub zeros : Memory
zeros i = 0

abbrev pub packet_of : Bytes → Packet
packet_of bytes = record { rx_packet = memcpy zeros bytes; index = length bytes }

-- Every entry of the list is connected.
abbrev pub full_list : Devices
full_list i = record {
  mac = zeros;
  conn_handle = i;
  handle_id = 7;
  status = 1;
  central_id = zeros;
  device_state = 0;
}

abbrev pub empty_list : Devices
empty_list i = record {
  mac = zeros;
  conn_handle = i;
  handle_id = 7;
  status = 0;
  central_id = zeros;
  device_state = 0;
}

abbrev pub gateway : Gateway
gateway = record { devices = full_list; slave_count = 5; sent = []; written = [] }

-- A command status for opcode 0xFE04.
abbrev pub scan_status : Bytes
scan_status = 0x04 ∷ 0xFF ∷ 0x06 ∷ 0x7F ∷ 0x06 ∷ 0x00 ∷ 0x04 ∷ 0xFE ∷ 0x00 ∷ []

-- A link of handle 2 terminated for reason 0x3E.
abbrev pub terminated_link : Bytes
terminated_link = 0x04 ∷ 0xFF ∷ 0x06 ∷ 0x06 ∷ 0x06 ∷ 0x00 ∷ 0x02 ∷ 0x00 ∷ 0x3E ∷ []

-- A link of handle 4 terminated for reason 0x13.
abbrev pub other_terminated_link : Bytes
other_terminated_link = 0x04 ∷ 0xFF ∷ 0x06 ∷ 0x06 ∷ 0x06 ∷ 0x00 ∷ 0x04 ∷ 0x00 ∷ 0x13 ∷ []

-- A notification of connection 1.
abbrev pub notification : Bytes
notification =
    0x04 ∷ 0xFF ∷ 0x0A ∷ 0x1B ∷ 0x05 ∷ 0x00 ∷ 0x01 ∷ 0x00 ∷ 0x04 ∷ 0x0C ∷ 0x00 ∷ 0x41 ∷ 0x42 ∷ []

-- A write of connection 0 to the handle 0x0003.
abbrev pub peer_write : Bytes
peer_write =
    0x04 ∷ 0xFF ∷ 0x0C ∷ 0x12 ∷ 0x05 ∷ 0x00 ∷ 0x00 ∷ 0x00 ∷ 0x06 ∷ 0x00 ∷ 0x00 ∷ 0x03 ∷ 0x00 ∷ 0x41
    ∷ 0x42 ∷ []
