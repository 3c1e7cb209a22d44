-- ===== src/Receiver.antt =====
-- The byte receiver of BLE_Scanner/src/UartCmdRxThread.c: the state machine of `UartCmdRxThread`
-- that cuts the UART stream into packets. What is done with a packet is in `Router`.
-- `rx_packet` has 2048 bytes and `index` is a `uint8_t`, so every write lands inside it. `count`
-- is an `int`; `count--; count <= 0` holds exactly when it was at most 1, since it is never
-- negative when a byte arrives.
pub mod Frames
pub mod Edges
use ble_parking_gate_way.Prelude.{
  ℕ, ◌+◌, ◌-◌, Bool, true, false, ◌&&◌, ◌||◌, List, [], ◌∷◌, Option, none, some, Bytes, Memory,
  update, u8, ◌==◌, if◌then◌else◌,
}

abbrev pub ble_evt_pkt : ℕ
ble_evt_pkt = 0x04

abbrev pub ble_asd_pkt : ℕ
ble_asd_pkt = 0x02

pub data State : Type 0 where
  idle init event_response event_length packet_wait error : State

pub record Receiver : Type 0 where
  pub current_state : State
  pub select_q : ℕ
  pub index : ℕ  -- uint8_t
  pub count : ℕ
  pub rx_packet : Memory

-- What the thread hands on: the whole array, and the number of bytes that `index` counts.
pub record Packet : Type 0 where
  pub rx_packet : Memory
  pub index : ℕ

-- `rx_packet[index++] = rx_byte`
abbrev pub store : Receiver → ℕ → Receiver
store r b = record r { rx_packet = update r.rx_packet r.index b; index = u8 (r.index + 1) }

-- What the loop leaves behind once a packet is handed on.
abbrev pub finished : Receiver → Receiver
finished r = record r { select_q = 0; current_state = State.idle; index = 0; count = 0 }

abbrev is_idle : State → Bool
is_idle State.idle = true
is_idle _ = false

-- The test before the `switch`.
wake : Receiver → ℕ → Receiver
wake r b =
    if r.index == 0 && is_idle r.current_state && (b == ble_evt_pkt || b == ble_asd_pkt)
    then record r { current_state = State.init }
    else r

-- The `switch` on `current_state`.
dispatch : State → Receiver → ℕ → Receiver × Option Packet
dispatch State.idle r b = (record r { index = 0; count = 0 }, none)
dispatch State.init r b =
    if b == ble_evt_pkt
    then (record (store r b) { current_state = State.event_response; select_q = 1 }, none)
    else if b == ble_asd_pkt
    then (record (store r b) { select_q = 2 }, none)
    else (record r { current_state = State.error }, none)
dispatch State.event_response r b =
    (record (store r b) { current_state = State.event_length }, none)
dispatch State.event_length r b =
    (record (store r b) { count = b; current_state = State.packet_wait }, none)
dispatch State.packet_wait r b =
    let s = record (store r b) { count = r.count - 1 } in
    if s.count == 0
    then (finished s, some (record { rx_packet = s.rx_packet; index = s.index }))
    else (s, none)
dispatch State.error r b = (r, none)

-- One turn of the loop: a byte from the UART.
unfoldable pub receive : Receiver → ℕ → Receiver × Option Packet
unfolding wake dispatch
receive r b = let w = wake r b in dispatch w.current_state w b

abbrev pub cons_some : Option Packet → List Packet → List Packet
cons_some none ps = ps
cons_some (some p) ps = p ∷ ps

-- The loop over the bytes that have arrived: the receiver after them and the packets handed on.
unfoldable pub run : Receiver → Bytes → Receiver × List Packet
run r [] = (r, [])
run r (b ∷ bs) = let (s, p) = receive r b in let (t, ps) = run s bs in (t, cons_some p ps)
