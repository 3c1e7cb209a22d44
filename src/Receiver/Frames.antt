-- ===== src/Receiver/Frames.antt =====
-- The receiver of BLE_Scanner/src/UartCmdRxThread.c against the layout of an event:
-- type 0x04, event code, length byte, and that many bytes.
use ble_parking_gate_way.Prelude.{
  ℕ, suc, ◌+◌, ◌≤◌, ◌<◌, ◌≡◌, ◌≢◌, refl, ap, List, [], ◌∷◌, ◌++◌, map, Bytes, Memory, update, cells,
  length, u8, arith, some, none, ◌∙◌,
}
use mathlib.Core.Path.{ap₂}
use ble_parking_gate_way.Receiver.{
  State, Receiver, Packet, ble_evt_pkt, ble_asd_pkt, store, receive, run,
}

-- The receiver between two packets, over what the array holds.
abbrev pub ready : Memory → Receiver
ready m = record { current_state = State.idle; select_q = 0; index = 0; count = 0; rx_packet = m }

-- The array after bytes are stored from place `k` on, by a byte-wide index.
pub fill : Memory → ℕ → Bytes → Memory
fill m k [] = m
fill m k (b ∷ bs) = fill (update m k b) (u8 (k + 1)) bs

-- The bytes of a packet that the index counts.
abbrev pub contents : Packet → Bytes
contents p = cells p.rx_packet 0 p.index

-- An event on the wire.
abbrev pub event_bytes : ℕ → Bytes → Bytes
event_bytes code payload = ble_evt_pkt ∷ code ∷ length payload ∷ payload

fill_before :
    (bs : Bytes) (m : Memory) (k j : ℕ) → j < k → k + length bs ≤ 255 → fill m k bs j ≡ m j
unfolding fill
fill_before [] m k j h fits = refl
fill_before (b ∷ bs) m k j h fits = ground (arith, fill_before bs (update m k b) (u8 (k + 1)) j)

fill_cons :
    (b : ℕ) (bs : Bytes) (m : Memory) (k : ℕ)
    → k < 255
    → fill m k (b ∷ bs) ≡ fill (update m k b) (suc k) bs
unfolding fill
fill_cons b bs m k h = let e : u8 (k + 1) ≡ suc k = omega arith in rw e

-- Bytes that stay below place 256 are read back as they were stored.
pub cells-fill :
    (bs : Bytes) (m : Memory) (k : ℕ) → k + length bs ≤ 255 → cells (fill m k bs) k (length bs) ≡ bs
cells-fill [] m k fits = refl
cells-fill (b ∷ bs) m k fits =
    let kept : fill (update m k b) (suc k) bs k ≡ b =
      fill_before bs (update m k b) (suc k) k (omega arith) (omega arith) ∙ ground arith in
    ap (λ f. cells f k (suc (length bs))) (fill_cons b bs m k (omega arith))
    ∙ rw kept (ap (◌∷◌ b) (cells-fill bs (update m k b) (suc k) (omega arith)))

receive_last :
    (r : Receiver) (b : ℕ)
    → r.current_state ≡ State.packet_wait
    → r.count ≡ 1
    → receive r b ≡ (
        let m = update r.rx_packet r.index b in
        (ready m, some (record { rx_packet = m; index = u8 (r.index + 1) })))
unfolding receive
receive_last r b s n = ground arith

receive_more :
    (r : Receiver) (b n : ℕ)
    → r.current_state ≡ State.packet_wait
    → r.count ≡ suc (suc n)
    → receive r b ≡ (record (store r b) { count = suc n }, none)
unfolding receive
receive_more r b n s e = ground arith

-- A nonempty payload whose length is counted: the packet is handed on at its last byte.
run_payload :
    (bs : Bytes) (b : ℕ) (rest : Bytes) (r : Receiver)
    → r.current_state ≡ State.packet_wait
    → r.count ≡ suc (length bs)
    → run r (b ∷ (bs ++ rest)) ≡ (
        let m = fill r.rx_packet r.index (b ∷ bs) in
        let (t, ps) = run (ready m) rest in
        (t, record { rx_packet = m; index = u8 (r.index + suc (length bs)) } ∷ ps))
unfolding run fill
run_payload [] b rest r s n = rw (receive_last r b s n)
run_payload (c ∷ bs) b rest r s n =
    let q = record (store r b) { count = suc (length bs) } in
    let e : u8 (u8 (r.index + 1) + suc (length bs)) ≡ u8 (r.index + suc (suc (length bs))) =
      omega arith in
    rw (receive_more r b (length bs) s n) (rw (← e) (run_payload bs c rest q s refl))

run_header :
    (code n : ℕ) (rest : Bytes) (m : Memory)
    → run (ready m) (ble_evt_pkt ∷ code ∷ n ∷ rest)
      ≡ run
          (record {
            current_state = State.packet_wait;
            select_q = 1;
            index = 3;
            count = n;
            rx_packet = update (update (update m 0 ble_evt_pkt) 1 code) 2 n;
          })
          rest
unfolding run receive
run_header code n rest m = refl

-- An event with a payload of 1 to 255 bytes is handed on once, as soon as its last byte is
-- there; the array is filled by the byte-wide index and the count of its bytes wraps at 256.
pub run-event_bytes :
    (m : Memory) (code b : ℕ) (bs rest : Bytes)
    → run (ready m) (event_bytes code (b ∷ bs) ++ rest) ≡ (
        let m' = fill m 0 (event_bytes code (b ∷ bs)) in
        let (t, ps) = run (ready m') rest in
        (t, record { rx_packet = m'; index = u8 (4 + length bs) } ∷ ps))
unfolding fill
run-event_bytes m code b bs rest =
    run_header code (suc (length bs)) (b ∷ (bs ++ rest)) m
    ∙ (let e : u8 (3 + suc (length bs)) ≡ u8 (4 + length bs) = omega arith in
        rw (← e) (run_payload bs b rest _ refl refl))

-- What may stand on the wire: a byte that starts no packet, or an event.
pub data Item : Type 0 where
  noise : ℕ → Item
  event : ℕ → Bytes → Item

abbrev pub IsReceivable : Item → Type 0
IsReceivable (noise b) = (b ≢ ble_evt_pkt) × (b ≢ ble_asd_pkt)
IsReceivable (event code payload) = (1 ≤ length payload) × (length payload ≤ 252)

abbrev pub wire : List Item → Bytes
wire [] = []
wire (noise b ∷ items) = b ∷ wire items
wire (event code payload ∷ items) = event_bytes code payload ++ wire items

abbrev pub events : List Item → List Bytes
events [] = []
events (noise b ∷ items) = events items
events (event code payload ∷ items) = event_bytes code payload ∷ events items

abbrev pub All {ℓ κ} : {A : Type ℓ} → (A → Type κ) → List A → Type κ
All P [] = Unit
All P (x ∷ xs) = P x × All P xs

receive_noise :
    (m : Memory) (b : ℕ) → b ≢ ble_evt_pkt → b ≢ ble_asd_pkt → receive (ready m) b ≡ (ready m, none)
unfolding receive
receive_noise m b h k = ground arith

pub run_noise :
    (m : Memory) (b : ℕ) (rest : Bytes)
    → b ≢ ble_evt_pkt
    → b ≢ ble_asd_pkt
    → run (ready m) (b ∷ rest) ≡ run (ready m) rest
unfolding run
run_noise m b rest h k = rw (receive_noise m b h k)

-- What the receiver has to do with the items of a wire.
abbrev pub Receives : List Item → Receiver × List Packet → Type 0
Receives items out = (map contents out.1 ≡ events items) × (out.0.current_state ≡ State.idle)

contents_event :
    (m : Memory) (code b : ℕ) (bs : Bytes)
    → suc (length bs) ≤ 252
    → contents
        (record { rx_packet = fill m 0 (event_bytes code (b ∷ bs)); index = u8 (4 + length bs) })
      ≡ event_bytes code (b ∷ bs)
contents_event m code b bs fits =
    let e : u8 (4 + length bs) ≡ length (event_bytes code (b ∷ bs)) = omega arith in
    rw e (cells-fill (event_bytes code (b ∷ bs)) m 0 (omega arith))

-- From the idle receiver, any sequence of stray bytes and of events with 1 to 252 bytes of
-- payload is cut into exactly those events, byte for byte and in order, and the receiver is
-- idle again at the end.
pub run-wire :
    (items : List Item) (m : Memory)
    → All IsReceivable items
    → Receives items (run (ready m) (wire items))
run-wire [] m fits = unfold run in (refl, refl)
run-wire (noise b ∷ items) m (h, t) = rw (run_noise m b (wire items) h.0 h.1) (run-wire items m t)
run-wire (event code [] ∷ items) m (h, t) = absurd (omega arith)
run-wire (event code (b ∷ bs) ∷ items) m (h, t) =
    let (same, idle) = run-wire items (fill m 0 (event_bytes code (b ∷ bs))) t in
    rw (run-event_bytes m code b bs (wire items))
      (ap₂ ◌∷◌ (contents_event m code b bs h.1) same, idle)

-- Behind such a sequence, the receiver waits for the next packet, whatever the array holds.
pub run-ready :
    (items : List Item) (m : Memory)
    → All IsReceivable items
    → (m' : Memory) × ((run (ready m) (wire items)).0 ≡ ready m')
run-ready [] m fits = (m, unfold run in refl)
run-ready (noise b ∷ items) m (h, t) = rw (run_noise m b (wire items) h.0 h.1) (run-ready items m t)
run-ready (event code [] ∷ items) m (h, t) = absurd (omega arith)
run-ready (event code (b ∷ bs) ∷ items) m (h, t) =
    let (m', same) = run-ready items (fill m 0 (event_bytes code (b ∷ bs))) t in
    (m', ap (λ out. out.0) (run-event_bytes m code b bs (wire items)) ∙ same)
