-- ===== src/Network/Bounded/Stream.antt =====
-- What `UartCmdRxThread` of BLE_Scanner/src/UartCmdRxThread.c has read of the controller's bytes.
use ble_parking_gate_way.Prelude.{
  ℕ, ◌+◌, ◌≤◌, ◌<◌, ◌≡◌, ◌⊎◌, inl, inr, refl, ◌∙◌, ap, sym, true, List, [], ◌∷◌, ◌++◌, append_assoc,
  append-nil, Bytes, Memory, drop, get_or, length, length-append, arith, Result, ok, fault, ◌>>=◌,
  Holds-ok,
}
use mathlib.Core.Path.{ap₂}
use mathlib.Core.Path.{fun_ext}
use ble_parking_gate_way.Drivers.{Queue, Message}
use ble_parking_gate_way.Receiver.{Receiver, receive}
use ble_parking_gate_way.Router.{Gateway}
use ble_parking_gate_way.Uart.{handle, thread}
use ble_parking_gate_way.Uart.Batch.{>>=_assoc}
use ble_parking_gate_way.Uart.Kept.{is_uart_queue}
use ble_parking_gate_way.Uart.Log.{messages_on, messages_on-append, Extends, handle-Extends}
use ble_parking_gate_way.Start.{Thread}
use ble_parking_gate_way.Network
use ble_parking_gate_way.Network.Queues.{byte, central_alone, central_takes, pipe, forward}
use ble_parking_gate_way.Network.Bounded.{Bounded, Step, turn, Later, here, next}
use ble_parking_gate_way.Network.Queues
use ble_parking_gate_way.Network.Bounded.Limits.{IsAbandoned, IsLimited, sent_limited}

-- The loop over some bytes, and then over others.
pub thread-append :
    (xs ys : Bytes) (r : Receiver) (g : Gateway)
    → thread r g (xs ++ ys) ≡ (thread r g xs >>= λ out. thread out.0 out.1 ys)
unfolding thread
thread-append [] ys r g = refl
thread-append (x ∷ xs) ys r g =
    let s = (receive r x).0 in
    ap (λ k. handle g (receive r x).1 >>= k) (fun_ext (λ g'. thread-append xs ys s g'))
    ∙ sym
        (>>=_assoc (handle g (receive r x).1) (λ g'. thread s g' xs) (λ out. thread out.0 out.1 ys))

pub bind-ok :
    {A B : Type 0} (o : Result A) (f : A → Result B) {b : B}
    → (o >>= f) ≡ ok b
    → (a : A) × (o ≡ ok a) × (f a ≡ ok b)
bind-ok (ok a) f h = (a, refl, h)
bind-ok (fault e) f h = absurd (cc)

-- A packet only adds to the messages, and so does a run of bytes.
pub thread-Extends :
    (bs : Bytes) (r : Receiver) (g : Gateway) {out : Receiver × Gateway}
    → thread r g bs ≡ ok out
    → (more : List Message) × (out.1.sent ≡ g.sent ++ more)
unfolding thread
thread-Extends [] r g {out} h = (
  [],
  Holds-ok (λ (o : Receiver × Gateway). o.1.sent ≡ g.sent ++ []) (ok (r, g)) h
      (sym (append-nil g.sent)),
)
thread-Extends (b ∷ bs) r g {out} h =
    let (g', first, rest) =
      bind-ok (handle g (receive r b).1) (λ g'. thread (receive r b).0 g' bs) h in
    let (more, same, _) = Holds-ok (Extends g.sent) _ first (handle-Extends g (receive r b).1) in
    let (most, same') = thread-Extends bs (receive r b).0 g' rest in
    (more ++ most, same' ∙ ap (λ ms. ms ++ most) same ∙ append_assoc g.sent more most)

-- Two ways to split the bytes: the first is at least as long as the other, or bytes are left before the
-- other's end.
split :
    (front wire xs ys : Bytes)
    → xs ++ ys ≡ front ++ wire
    → ((more : Bytes) × (front ≡ xs ++ more)) ⊎ ((b : ℕ) × (bs : Bytes) × (wire ≡ b ∷ bs ++ ys))
split front wire [] ys h = inl (front, refl)
split [] wire (x ∷ xs) ys h = inr (x, xs, sym h)
split (y ∷ front) wire (x ∷ xs) ys h = elim (split front wire xs ys (ap (drop 1) h)) [
  | inl (more, same) ↦ inl (more, ap₂ ◌∷◌ (sym (ap (λ bs. get_or bs 0 0) h)) same)
  | inr (b, bs, same) ↦ inr (b, bs, same)
]

-- What was read of the bytes, and what it led to.
abbrev IsRead : Network.Network → Bytes → Bounded → Type 0
IsRead start whole s =
    (front : Bytes) × (whole ≡ front ++ s.wire)
    × (thread start.receiver start.gateway front ≡ ok (s.queued.net.receiver, s.queued.net.gateway))

Step-IsRead :
    {limit : ℕ} {threads : List Thread} (start : Network.Network) (whole : Bytes) {s t : Bounded}
    → Step limit threads s t
    → IsRead start whole s
    → IsRead start whole t
unfolding thread
Step-IsRead start whole {s} (turn {wire} (byte b e) mine room same) (front, all, read) = (
  front ++ b ∷ [],
  all ∙ ap (λ w. front ++ w) same ∙ sym (append_assoc front (b ∷ []) wire),
  thread-append front (b ∷ []) start.receiver start.gateway ∙ rw (read, e),
)
Step-IsRead start whole (turn (central_alone i silent d) mine room same) (front, all, read) =
    (front, all ∙ ap (λ w. front ++ w) same, read)
Step-IsRead start whole (turn (central_takes i asked waits got d) mine room same)
      (front, all, read) =
    (front, all ∙ ap (λ w. front ++ w) same, read)
Step-IsRead start whole (turn (pipe buff forward_data_buff waits e) mine room same)
      (front, all, read) =
    (front, all ∙ ap (λ w. front ++ w) same, read)
Step-IsRead start whole (turn (forward buffer status replies n waits e few) mine room same)
      (front, all, read) =
    (front, all ∙ ap (λ w. front ++ w) same, read)

Later-IsRead :
    {limit : ℕ} {threads : List Thread} {s t : Bounded} (start : Network.Network) (whole : Bytes)
    → Later limit threads s t
    → IsRead start whole s
    → IsRead start whole t
Later-IsRead start whole here h = h
Later-IsRead start whole (next l step) h =
    Step-IsRead start whole step (Later-IsRead start whole l h)

-- Where the bytes lead to an end, the front of them leads to one from which the others lead there, and
-- all messages of the front are among those of the whole.
front_sends :
    (q : Queue) (xs more : Bytes) (r : Receiver) (g : Gateway) {out end : Receiver × Gateway}
    → thread r g xs ≡ ok out
    → thread r g (xs ++ more) ≡ ok end
    → length (messages_on q out.1.sent) ≤ length (messages_on q end.1.sent)
front_sends q xs more r g {out} {end} first all =
    let rest : thread out.0 out.1 more ≡ ok end =
      ap (λ o. o >>= λ (mid : Receiver × Gateway). thread mid.0 mid.1 more) (sym first)
      ∙ sym (thread-append xs more r g)
      ∙ all in
    let (ms, same) = thread-Extends more out.0 out.1 rest in
    omega (
      arith,
      ap (λ sent. length (messages_on q sent)) same,
      ap length (messages_on-append q out.1.sent ms),
      length-append (messages_on q out.1.sent) (messages_on q ms),
    )

-- From a state on in which no queue holds more than the limit, and no message is taken from one of the
-- thread's queues any more: if the next bytes of what the controller sends make more messages on it
-- than it can still take, then whatever turns follow, the last of these bytes is never read, nor is any
-- byte behind them.
pub never_read :
    {limit : ℕ} {threads : List Thread} {rx_packet buffer_rx : Memory} {s t : Bounded} (q : Queue)
    (bs more : Bytes) {out : Receiver × Gateway}
    → Queues.Reach rx_packet buffer_rx s.queued
    → IsLimited limit s.queued
    → is_uart_queue q ≡ true
    → IsAbandoned threads q s.queued.net.central
    → s.wire ≡ bs ++ more
    → thread s.queued.net.receiver s.queued.net.gateway bs ≡ ok out
    → length (s.queued.taken q) + limit < length (messages_on q out.1.sent)
    → Later limit threads s t
    → (b : ℕ) × (left : Bytes) × (t.wire ≡ b ∷ left ++ more)
never_read {s} {t} q bs more r small mine gone wire read over l =
    let start = s.queued.net in
    let (front, all, done) =
      Later-IsRead start (bs ++ more) l ([], sym wire, unfold thread in refl) in
    elim (split front t.wire bs more all) [
      | inr left ↦ left
      | inl (rest, same) ↦
          let most = sent_limited q r small mine gone l in
          let fewer =
            front_sends q bs rest start.receiver start.gateway read
              (ap (thread start.receiver start.gateway) (sym same) ∙ done) in
          absurd (omega (arith, over, most, fewer))
    ]
