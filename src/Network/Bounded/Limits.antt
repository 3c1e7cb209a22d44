-- ===== src/Network/Bounded/Limits.antt =====
-- How much the threads of BLE_Scanner/src send where nobody takes the messages.
use ble_parking_gate_way.Prelude.{
  ℕ, ◌+◌, ◌≤◌, ◌≡◌, ◌⊎◌, inl, inr, refl, ◌∙◌, ap, sym, Bool, true, false, ◌||◌, List, [], ◌++◌,
  Bytes, Memory, length, length-append, length-drop, In, arith, Bool-cases,
}
use mathlib.Core.Path.{subst}
use ble_parking_gate_way.Drivers.{Queue, is_same}
use ble_parking_gate_way.Uart.Kept.{is_uart_queue}
use ble_parking_gate_way.Uart.Log.{messages_on}
use ble_parking_gate_way.Central.State.{Progress, Central, Inputs}
use ble_parking_gate_way.Central.Asks.{asks}
use ble_parking_gate_way.Central.Reach.{step_stopped}
use ble_parking_gate_way.Start.{
  Thread, uart_cmd_rx_thread, central_mode_thread, pipe_0000_thread, forward_msg_queue_thread,
}
use ble_parking_gate_way.Network.Queues
use ble_parking_gate_way.Network.Queues.{
  Queued, deliver, take_from, byte, central_alone, central_takes, pipe, forward, fresh,
}
use ble_parking_gate_way.Network.Queues.Refines.{Reach-InOrder}
use ble_parking_gate_way.Network.Bounded.{Bounded, runs, sends, HasRoom, turn, Later, here, next}

-- The queues from which a thread takes messages.
abbrev pub takes : Thread → Queue → Bool
takes uart_cmd_rx_thread q = false
takes central_mode_thread q = is_same Queue.command_resp q
takes pipe_0000_thread q = is_same Queue.pipe_0 q
takes forward_msg_queue_thread q = is_same Queue.write_rsp q || is_same Queue.peer_device q

-- No message is taken from a queue any more: none of the threads takes from it, or
-- `CentralModeThread` does, but it has stopped in its last loop.
abbrev pub IsAbandoned : List Thread → Queue → Central → Type 0
IsAbandoned threads q c =
    ((thread : Thread) → In thread threads → takes thread q ≡ false)
    ⊎ ((q ≡ Queue.command_resp) × (c.progress ≡ Progress.spinning))

-- No queue holds more messages than the limit.
abbrev pub IsLimited : ℕ → Queued → Type 0
IsLimited limit s = (q : Queue) → length (s.pending q) ≤ limit

or_false : (a b : Bool) → (a || b) ≡ false → (a ≡ false) × (b ≡ false)
or_false false b h = (refl, h)
or_false true b h = absurd (cc)

untaken :
    (queue q : Queue) (n : ℕ) (s : Queued)
    → is_same queue q ≡ false
    → (take_from queue n s).taken q ≡ s.taken q
untaken queue q n s h = rw h refl

taken-kept :
    (q : Queue) {s t : Queued} (step : Queues.Step s t)
    → takes (runs step) q ≡ false
    → t.taken q ≡ s.taken q
taken-kept q (byte b e) h = refl
taken-kept q (central_alone i silent d) h = refl
taken-kept q {s} (central_takes i asked waits got d) h = untaken Queue.command_resp q 1 s h
taken-kept q {s} (pipe buff forward_data_buff {got} waits e) h = untaken Queue.pipe_0 q got s h
taken-kept q {s} (forward buffer status replies n {got} waits e few) h =
    let (no_status, no_message) =
      or_false (is_same Queue.write_rsp q) (is_same Queue.peer_device q) h in
    untaken Queue.write_rsp q n (take_from Queue.peer_device got s) no_status
    ∙ untaken Queue.peer_device q got s no_message

-- Once `CentralModeThread` has stopped, it asks for no message.
stopped-asks : (c : Central) (i : Inputs) → c.progress ≡ Progress.spinning → asks c i ≡ false
unfolding asks
stopped-asks c i h = rw h refl

taken-stopped :
    {s t : Queued} (step : Queues.Step s t)
    → s.net.central.progress ≡ Progress.spinning
    → (t.taken Queue.command_resp ≡ s.taken Queue.command_resp)
      × (t.net.central.progress ≡ Progress.spinning)
taken-stopped (byte b e) h = (refl, h)
taken-stopped {s} (central_alone i silent d) h =
    (refl, ap (λ (c : Central). c.progress) (step_stopped s.net.central i h) ∙ h)
taken-stopped {s} (central_takes i asked waits got d) h =
    absurd (let off = stopped-asks s.net.central i h in cc)
taken-stopped (pipe buff forward_data_buff waits e) h = (refl, h)
taken-stopped (forward buffer status replies n waits e few) h = (refl, h)

pending_fewer :
    (queue q : Queue) (n : ℕ) (s : Queued)
    → length ((take_from queue n s).pending q) ≤ length (s.pending q)
pending_fewer queue q n s = elim (Bool-cases (is_same queue q)) [
  | inl h ↦ rw h (length-drop n (s.pending q))
  | inr h ↦ rw h (omega arith)
]

IsAbandoned-kept :
    {threads : List Thread} (q : Queue) {s t : Queued} (step : Queues.Step s t)
    → In (runs step) threads
    → IsAbandoned threads q s.net.central
    → (t.taken q ≡ s.taken q) × IsAbandoned threads q t.net.central
IsAbandoned-kept q step mine (inl nobody) =
    (taken-kept q step (nobody (runs step) mine), inl nobody)
IsAbandoned-kept q {s} {t} step mine (inr (which, stopped)) =
    let (kept, still) = taken-stopped step stopped in
    (subst (λ queue. t.taken queue ≡ s.taken queue) (sym which) kept, inr (which, still))

-- A queue from which messages are taken, and then others come.
delivered_limited :
    (limit : ℕ) (held later new : List Bytes)
    → length later ≤ length held
    → length held ≤ limit
    → (new ≡ []) ⊎ (length (held ++ new) ≤ limit)
    → length (later ++ new) ≤ limit
delivered_limited limit held later new fewer small (inl none_new) =
    omega (arith, length-append later new, ap length none_new)
delivered_limited limit held later new fewer small (inr fits) =
    omega (arith, length-append later new, length-append held new)

Step-IsLimited :
    (limit : ℕ) {s t : Queued} (step : Queues.Step s t)
    → IsLimited limit s
    → HasRoom limit s.pending (sends step)
    → IsLimited limit t
Step-IsLimited limit {s} (byte b e) small room q =
    delivered_limited limit (s.pending q) (s.pending q) _ (omega arith) (small q) (room q)
Step-IsLimited limit (central_alone i silent d) small room q = small q
Step-IsLimited limit {s} (central_takes i asked waits got d) small room q =
    omega (arith, pending_fewer Queue.command_resp q 1 s, small q)
Step-IsLimited limit {s} (pipe buff forward_data_buff {got} waits e) small room q =
    delivered_limited limit (s.pending q) _ _ (pending_fewer Queue.pipe_0 q got s) (small q)
      (room q)
Step-IsLimited limit {s} (forward buffer status replies n {got} waits e few) small room q = omega (
  arith,
  pending_fewer Queue.write_rsp q n (take_from Queue.peer_device got s),
  pending_fewer Queue.peer_device q got s,
  small q,
)

module _ {limit : ℕ} {threads : List Thread} where
  pub Later-append :
      {s t u : Bounded}
      → Later limit threads s t
      → Later limit threads t u
      → Later limit threads s u
  Later-append before here = before
  Later-append before (next l step) = next (Later-append before l) step

  -- What follows is reached without a limit, too.
  pub Later-Reach :
      {rx_packet buffer_rx : Memory} {s t : Bounded}
      → Later limit threads s t
      → Queues.Reach rx_packet buffer_rx s.queued
      → Queues.Reach rx_packet buffer_rx t.queued
  Later-Reach here r = r
  Later-Reach (next l (turn step mine room same)) r = Queues.Reach.next (Later-Reach l r) step

  pub Later-IsLimited :
      {s t : Bounded}
      → Later limit threads s t
      → IsLimited limit s.queued
      → IsLimited limit t.queued
  Later-IsLimited here small = small
  Later-IsLimited (next l (turn step mine room same)) small =
      Step-IsLimited limit step (Later-IsLimited l small) room

  Later-taken :
      (q : Queue) {s t : Bounded}
      → Later limit threads s t
      → IsAbandoned threads q s.queued.net.central
      → (t.queued.taken q ≡ s.queued.taken q) × IsAbandoned threads q t.queued.net.central
  Later-taken q here gone = (refl, gone)
  Later-taken q (next {t = m} l (turn {t} step mine room same)) gone =
      let (old, still) = Later-taken q l gone in
      let (kept, always) = IsAbandoned-kept q step mine still in (kept ∙ old, always)

-- From a state on in which a queue holds no more than the limit, and in which no message is taken from it
-- any more, whatever turns follow: all that is ever sent on it is what was taken from it before, and at
-- most as many messages as the limit says.
pub sent_limited :
    {limit : ℕ} {threads : List Thread} {rx_packet buffer_rx : Memory} {s t : Bounded} (q : Queue)
    → Queues.Reach rx_packet buffer_rx s.queued
    → IsLimited limit s.queued
    → is_uart_queue q ≡ true
    → IsAbandoned threads q s.queued.net.central
    → Later limit threads s t
    → length (messages_on q t.queued.net.gateway.sent) ≤ length (s.queued.taken q) + limit
sent_limited {t} q r small mine gone l =
    let (kept, always) = Later-taken q l gone in
    let order = (Reach-InOrder (Later-Reach l r)).from_uart q mine in
    omega (
      arith,
      ap length order,
      length-append (t.queued.taken q) (t.queued.pending q),
      ap length kept,
      Later-IsLimited l small q,
    )
