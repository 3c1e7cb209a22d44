-- ===== src/Receiver/Edges.antt =====
-- The receiver of BLE_Scanner/src/UartCmdRxThread.c off the regular layout: data packets, events
-- with no payload, events too long for the byte-wide index, and the bounds of its state.
use ble_parking_gate_way.Prelude.{
  ℕ, ◌+◌, ◌≤◌, ◌<◌, ◌≡◌, ◌≢◌, refl, ap, ◌∙◌, List, [], ◌∷◌, ◌++◌, some, none, append-nil, Bytes,
  Memory, length, arith, u8, sym, Bool, true, false, Option,
}
use ble_parking_gate_way.Receiver.{
  State, Receiver, Packet, ble_evt_pkt, ble_asd_pkt, receive, run, cons_some,
}
use ble_parking_gate_way.Receiver.Frames.{ready, contents, event_bytes, All, fill, run-event_bytes}

receive_error : (r : Receiver) (b : ℕ) → r.current_state ≡ State.error → receive r b ≡ (r, none)
unfolding receive
receive_error r b h = ground arith

run_error : (bs : Bytes) (r : Receiver) → r.current_state ≡ State.error → run r bs ≡ (r, [])
unfolding run
run_error [] r h = refl
run_error (b ∷ bs) r h = rw (receive_error r b h) (rw (run_error bs r h))

receive_asd :
    (m : Memory) (b : ℕ)
    → b ≢ ble_evt_pkt
    → b ≢ ble_asd_pkt
    → ((receive (receive (ready m) ble_asd_pkt).0 b).0.current_state ≡ State.error)
      × ((receive (ready m) ble_asd_pkt).1 ≡ none)
      × ((receive (receive (ready m) ble_asd_pkt).0 b).1 ≡ none)
unfolding receive
receive_asd m b h k = (ground arith, refl, ground arith)

-- A data packet (type 0x02) whose next byte is neither 0x02 nor 0x04 puts the receiver into
-- STATE_ERROR for good: no packet is handed on any more, whatever bytes follow.
pub asd_wedges :
    (m : Memory) (b : ℕ) (bs : Bytes)
    → b ≢ ble_evt_pkt
    → b ≢ ble_asd_pkt
    → ((run (ready m) (ble_asd_pkt ∷ b ∷ bs)).0.current_state ≡ State.error)
      × ((run (ready m) (ble_asd_pkt ∷ b ∷ bs)).1 ≡ [])
unfolding run
asd_wedges m b bs h k =
    let (wedged, quiet, still) = receive_asd m b h k in
    let r = (receive (receive (ready m) ble_asd_pkt).0 b).0 in
    rw (run_error bs r wedged, quiet, still) (wedged, refl)

-- For the idle receiver, an event with a length byte of 0 takes the byte behind it, the start of
-- whatever comes next, for its own: it is handed on with that byte, and only then is the
-- receiver idle again.
pub run-zero_length :
    (m : Memory) (code b : ℕ) (rest : Bytes)
    → (r : Receiver) × (p : Packet) × (run (ready m) (event_bytes code [] ++ b ∷ rest)
        ≡ ((run r rest).0, p ∷ (run r rest).1))
      × (r.current_state ≡ State.idle)
      × (contents p ≡ ble_evt_pkt ∷ code ∷ 0 ∷ b ∷ [])
unfolding run receive
run-zero_length m code b rest = (ready _, record { rx_packet = _; index = 4 }, refl, refl, refl)

-- An event with a payload of 253 to 255 bytes wraps the byte-wide index: one packet is handed
-- on, and it counts 253 bytes fewer than the payload has, at most 2, in place of 3 bytes more.
pub run-too_long :
    (m : Memory) (code : ℕ) (payload : Bytes)
    → 253 ≤ length payload
    → length payload ≤ 255
    → (p : Packet) × ((run (ready m) (event_bytes code payload)).1 ≡ p ∷ [])
      × (p.index + 253 ≡ length payload)
run-too_long m code [] lo hi = absurd (omega arith)
run-too_long m code (b ∷ bs) lo hi = (
  record { rx_packet = fill m 0 (event_bytes code (b ∷ bs)); index = u8 (4 + length bs) },
  packets,
  omega arith,
)
  where
    packets :
        (run (ready m) (event_bytes code (b ∷ bs))).1
        ≡ record { rx_packet = fill m 0 (event_bytes code (b ∷ bs)); index = u8 (4 + length bs) }
          ∷ []
    packets =
        ap (λ bytes. (run (ready m) bytes).1) (sym (append-nil (event_bytes code (b ∷ bs))))
        ∙ ap (λ out. out.1) (run-event_bytes m code b bs [])
        ∙ unfold run in refl

abbrev reads_event : State → Bool
reads_event State.event_response = true
reads_event State.event_length = true
reads_event State.packet_wait = true
reads_event _ = false

abbrev HasBound : Option Packet → Type 0
HasBound none = Unit
HasBound (some p) = p.index < 256

HasBound-cons :
    (o : Option Packet) (ps : List Packet)
    → HasBound o
    → All (λ p. p.index < 256) ps
    → All (λ p. p.index < 256) (cons_some o ps)
HasBound-cons none ps h t = t
HasBound-cons (some p) ps h t = (h, t)

-- What holds of the receiver between two bytes.
pub record IsValid (r : Receiver) : Type 0 where
  pub index_fits : r.index < 256
  pub count_fits : r.count < 256
  pub idle_empty : r.current_state ≡ State.idle → r.index ≡ 0
  pub events_only : reads_event r.current_state ≡ true → r.select_q ≡ 1

receive-IsValid :
    (r : Receiver) (b : ℕ)
    → b < 256
    → IsValid r
    → IsValid (receive r b).0 × HasBound (receive r b).1
unfolding receive
receive-IsValid r b h v = (ground arith, ground arith)

-- From a receiver within its bounds, and for any bytes, the receiver stays within them: the
-- index and the count fit a byte, an idle receiver has an empty packet, one inside an event has
-- selected the event queue, and every packet handed on counts fewer than 256 bytes.
pub run-IsValid :
    (bs : Bytes) (r : Receiver)
    → All (λ b. b < 256) bs
    → IsValid r
    → IsValid (run r bs).0 × All (λ p. p.index < 256) (run r bs).1
unfolding run
run-IsValid [] r h v = (v, tt)
run-IsValid (b ∷ bs) r (h, t) v =
    let (kept, bound) = receive-IsValid r b h v in
    let (end, bounds) = run-IsValid bs (receive r b).0 t kept in
    (end, HasBound-cons (receive r b).1 (run (receive r b).0 bs).1 bound bounds)
