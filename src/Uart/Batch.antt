-- ===== src/Uart/Batch.antt =====
-- The loop of `UartCmdRxThread` in BLE_Scanner/src/UartCmdRxThread.c against the plain order of
-- things: first cut all bytes into packets, then handle the packets one after the other.
use mathlib.Core.Path.{fun_ext}
use ble_parking_gate_way.Prelude.{
  ◌≡◌, refl, ◌∙◌, ap, sym, List, [], ◌∷◌, Option, none, some, Bytes, Result, ok, fault, ◌>>=◌,
}
use ble_parking_gate_way.Receiver.{Receiver, Packet, receive, run, cons_some}
use ble_parking_gate_way.Router.{Gateway, route}
use ble_parking_gate_way.Uart.{handle, thread}

-- The packets, one after the other.
unfoldable pub route_all : Gateway → List Packet → Result Gateway
route_all g [] = ok g
route_all g (p ∷ ps) = route g p >>= λ g'. route_all g' ps

pub >>=_assoc :
    {A B C : Type 0} (o : Result A) (f : A → Result B) (h : B → Result C)
    → ((o >>= f) >>= h) ≡ (o >>= λ a. f a >>= h)
>>=_assoc (ok a) f h = refl
>>=_assoc (fault e) f h = refl

route_all-cons_some :
    (g : Gateway) (p : Option Packet) (ps : List Packet)
    → route_all g (cons_some p ps) ≡ (handle g p >>= λ g'. route_all g' ps)
unfolding handle route_all
route_all-cons_some g none ps = refl
route_all-cons_some g (some p) ps = refl

-- The loop does what cutting the bytes first and handling the packets afterwards would do, faults
-- included: the receiver's state does not depend on what is done with a packet, nor the other
-- way round.
pub thread-route_all :
    (r : Receiver) (g : Gateway) (bs : Bytes)
    → thread r g bs ≡ (route_all g (run r bs).1 >>= λ g'. ok ((run r bs).0, g'))
unfolding thread run route_all
thread-route_all r g [] = refl
thread-route_all r g (b ∷ bs) =
    let s = (receive r b).0 in
    let p = (receive r b).1 in
    let out = run s bs in
    let rest : (λ g'. thread s g' bs) ≡ (λ g'. route_all g' out.1 >>= λ g''. ok (out.0, g'')) =
      fun_ext (λ g'. thread-route_all s g' bs) in
    ap (λ k. handle g p >>= k) rest
    ∙ sym (>>=_assoc (handle g p) (λ g'. route_all g' out.1) (λ g'. ok (out.0, g')))
    ∙ ap (λ o. o >>= λ g'. ok (out.0, g')) (sym (route_all-cons_some g p out.1))
