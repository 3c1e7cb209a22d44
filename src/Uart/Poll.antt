-- ===== src/Uart/Poll.antt =====
-- How the loop of `UartCmdRxThread` in BLE_Scanner/src/UartCmdRxThread.c gets its bytes: the result of
-- `read` is not looked at, so that a read that fails leaves `rx_byte` as it was, and the byte is
-- handled again. Where `select` fails, it leaves the set as it was filled, and the read follows.
use ble_parking_gate_way.Prelude.{
  ℕ, ◌≡◌, refl, ap, ◌∙◌, Bool, true, false, List, [], ◌∷◌, Option, none, some, Bytes, Result, ok,
  fault, Fault, ◌>>=◌,
}
use mathlib.Core.Path.{fun_ext}
use ble_parking_gate_way.Receiver.{Receiver, receive}
use ble_parking_gate_way.Router.{Gateway}
use ble_parking_gate_way.Uart.{handle, thread}

-- A turn of the loop: `FD_ISSET` is false, `read` yields a byte, or it yields none.
pub data Poll : Type 0 where
  not_set unread : Poll
  got : ℕ → Poll

-- `rx_byte` after a turn's `read`; it is `none` until a byte is read.
abbrev pub read_into : Option ℕ → Poll → Option ℕ
read_into rx_byte (got b) = some b
read_into rx_byte _ = rx_byte

-- The rest of a turn, once `rx_byte` is read.
unfoldable pub take_byte : Option ℕ → Receiver → Gateway → Result (Receiver × Gateway)
take_byte none r g = fault Fault.uninitialised
take_byte (some b) r g = let (s, p) = receive r b in handle g p >>= λ g'. ok (s, g')

unfoldable pub poll : Option ℕ → Poll → Receiver → Gateway → Result (Receiver × Gateway)
poll rx_byte not_set r g = ok (r, g)
poll rx_byte unread r g = take_byte rx_byte r g
poll rx_byte (got b) r g = take_byte (some b) r g

-- `while (SysExitFlag == 0) ...`, given for each turn whether the flag is set as the loop looks at it,
-- since `main` may set it at any time, and what `select` and `read` do.
unfoldable pub loop :
    Option ℕ → List (Bool × Poll) → Receiver → Gateway → Result (Receiver × Gateway)
loop rx_byte [] r g = ok (r, g)
loop rx_byte ((true, p) ∷ turns) r g = ok (r, g)
loop rx_byte ((false, p) ∷ turns) r g =
    poll rx_byte p r g >>= λ out. loop (read_into rx_byte p) turns out.0 out.1

-- The bytes that the turns handle, once `last` was read: one for each `read`, whether it succeeds or
-- not, until the flag is set.
abbrev pub heard : ℕ → List (Bool × Poll) → Bytes
heard last [] = []
heard last ((true, p) ∷ turns) = []
heard last ((false, not_set) ∷ turns) = heard last turns
heard last ((false, unread) ∷ turns) = last ∷ heard last turns
heard last ((false, got b) ∷ turns) = b ∷ heard b turns

bind_handle :
    (o : Result Gateway) (s : Receiver) (k : Receiver × Gateway → Result (Receiver × Gateway))
    → ((o >>= λ g'. ok (s, g')) >>= k) ≡ (o >>= λ g'. k (s, g'))
bind_handle (ok g) s k = refl
bind_handle (fault e) s k = refl

-- A byte, and then what the other turns make of it.
byte_first :
    (b : ℕ) (ps : List (Bool × Poll)) (next : ℕ) (r : Receiver) (g : Gateway)
    → ((s : Receiver) (g' : Gateway) → loop (some next) ps s g' ≡ thread s g' (heard next ps))
    → (take_byte (some b) r g >>= λ out. loop (some next) ps out.0 out.1)
      ≡ thread r g (b ∷ heard next ps)
unfolding take_byte thread
byte_first b ps next r g rest =
    let s = (receive r b).0 in
    bind_handle (handle g (receive r b).1) s (λ out. loop (some next) ps out.0 out.1)
    ∙ ap (λ k. handle g (receive r b).1 >>= k) (fun_ext (λ g'. rest s g'))

-- Once a byte was read, the turns do what the loop over bytes does on these, until `SysExitFlag` is found
-- to be set: each byte that is read, and for each read that fails the byte before it once more.
pub loop-thread :
    (turns : List (Bool × Poll)) (last : ℕ) (r : Receiver) (g : Gateway)
    → loop (some last) turns r g ≡ thread r g (heard last turns)
unfolding loop poll
loop-thread [] last r g = unfold thread in refl
loop-thread ((true, p) ∷ turns) last r g = unfold thread in refl
loop-thread ((false, not_set) ∷ turns) last r g = loop-thread turns last r g
loop-thread ((false, unread) ∷ turns) last r g =
    byte_first last turns last r g (λ s g'. loop-thread turns last s g')
loop-thread ((false, got b) ∷ turns) last r g =
    byte_first b turns b r g (λ s g'. loop-thread turns b s g')
