-- ===== src/Network/Bounded/Waiting.antt =====
-- What waits on the queues of BLE_Scanner/src while a peer's write is read, and the room for it.
use ble_parking_gate_way.Prelude.{
  ℕ, ◌+◌, ◌≤◌, ◌≡◌, refl, ◌∙◌, ap, sym, List, [], ◌∷◌, ◌++◌, append-nil, inl, inr, Bytes, Memory,
  length, length-append, drop, drop-append, arith,
}
use ble_parking_gate_way.Drivers.{Queue}
use ble_parking_gate_way.Receiver.{Receiver}
use ble_parking_gate_way.Router.{Gateway}
use ble_parking_gate_way.Uart.Log.{messages_on, messages_on-append}
use ble_parking_gate_way.Network.Queues.Relayed.{heard_by}
use ble_parking_gate_way.Network.Queues
use ble_parking_gate_way.Network.Queues.{Queued, pipe, forward}
use ble_parking_gate_way.Network.Queues.Refines.{Reach-InOrder}
use ble_parking_gate_way.Network.Bounded.{HasRoom}
use ble_parking_gate_way.Network.Bounded.Limits.{IsLimited}
use ble_parking_gate_way.Network.Bounded.Room.{Fits}

same_behind : {A : Type 0} (xs : List A) {ys zs : List A} → xs ++ ys ≡ xs ++ zs → ys ≡ zs
same_behind xs {ys} {zs} h = sym (drop-append xs ys) ∙ ap (drop (length xs)) h ∙ drop-append xs zs

pub forwarded-HasRoom :
    (limit : ℕ) (pending : Queue → List Bytes) (bytes : Bytes)
    → pending Queue.peer_device ≡ []
    → 1 ≤ limit
    → HasRoom limit pending ((Queue.peer_device, bytes) ∷ [])
forwarded-HasRoom limit pending bytes idle fits Queue.peer_device =
    inr
      (omega (arith, ap length idle, length-append (pending Queue.peer_device) (bytes ∷ []), fits))
forwarded-HasRoom limit pending bytes idle fits Queue.pipe_0 = inl refl
forwarded-HasRoom limit pending bytes idle fits Queue.command_resp = inl refl
forwarded-HasRoom limit pending bytes idle fits Queue.write_rsp = inl refl
forwarded-HasRoom limit pending bytes idle fits Queue.ping_pkt = inl refl

-- A write finds room where none is waiting in front of it.
pipe-HasRoom :
    {limit : ℕ} (s : Queued) (bytes : Bytes)
    → IsLimited limit s
    → s.pending Queue.pipe_0 ≡ []
    → 1 ≤ limit
    → (q : Queue)
    → length (messages_on q ((Queue.pipe_0, bytes) ∷ [])) + length (s.pending q) ≤ limit
pipe-HasRoom s bytes small none_piped room Queue.pipe_0 = omega (arith, ap length none_piped, room)
pipe-HasRoom s bytes small none_piped room Queue.peer_device =
    omega (arith, small Queue.peer_device)
pipe-HasRoom s bytes small none_piped room Queue.command_resp =
    omega (arith, small Queue.command_resp)
pipe-HasRoom s bytes small none_piped room Queue.write_rsp = omega (arith, small Queue.write_rsp)
pipe-HasRoom s bytes small none_piped room Queue.ping_pkt = omega (arith, small Queue.ping_pkt)

pub write-Fits :
    {limit : ℕ} {rx_packet buffer_rx : Memory} {s : Queued} (g : Gateway) (bytes : Bytes)
    → Queues.Reach rx_packet buffer_rx s
    → IsLimited limit s
    → s.pending Queue.pipe_0 ≡ []
    → 1 ≤ limit
    → g.sent ≡ s.net.gateway.sent ++ (Queue.pipe_0, bytes) ∷ []
    → Fits limit s.taken g
write-Fits {s} g bytes r small none_piped room told q mine = omega (
  arith,
  ap length ((Reach-InOrder r).from_uart q mine),
  length-append (s.taken q) (s.pending q),
  ap (λ sent. length (messages_on q sent)) told,
  ap length (messages_on-append q s.net.gateway.sent ((Queue.pipe_0, bytes) ∷ [])),
  length-append (messages_on q s.net.gateway.sent) (messages_on q ((Queue.pipe_0, bytes) ∷ [])),
  pipe-HasRoom s bytes small none_piped room q,
)

-- What waits for `pipe_0000_Thread` once a write was read, and that nothing waits behind it.
pub pipe_waits :
    {rx_packet buffer_rx : Memory} {s : Queued} {out : Receiver × Gateway}
    {pending : Queue → List Bytes} (bytes : Bytes)
    → Queues.Reach rx_packet buffer_rx s
    → s.pending Queue.pipe_0 ≡ []
    → out.1.sent ≡ s.net.gateway.sent ++ (Queue.pipe_0, bytes) ∷ []
    → Queues.Reach rx_packet buffer_rx (heard_by s out pending)
    → pending Queue.pipe_0 ≡ bytes ∷ []
pipe_waits {s} bytes r none_piped told r1 = same_behind (s.taken Queue.pipe_0) (
    (Reach-InOrder r1).from_uart Queue.pipe_0 refl
    ∙ ap (messages_on Queue.pipe_0) told
    ∙ messages_on-append Queue.pipe_0 s.net.gateway.sent ((Queue.pipe_0, bytes) ∷ [])
    ∙ ap (λ ms. ms ++ bytes ∷ [])
        (sym ((Reach-InOrder r).from_uart Queue.pipe_0 refl)
          ∙ ap (λ ms. s.taken Queue.pipe_0 ++ ms) none_piped
          ∙ append-nil (s.taken Queue.pipe_0)))

pub no_peer_waits :
    {rx_packet buffer_rx : Memory} {s : Queued} {out : Receiver × Gateway}
    {pending : Queue → List Bytes}
    → Queues.Reach rx_packet buffer_rx s
    → s.pending Queue.peer_device ≡ []
    → Queues.Reach rx_packet buffer_rx (heard_by s out pending)
    → pending Queue.peer_device ≡ []
no_peer_waits {s} r none_forwarded r1 =
    same_behind (s.taken Queue.peer_device)
      ((Reach-InOrder r1).from_pipe ∙ sym ((Reach-InOrder r).from_pipe))
    ∙ none_forwarded
