-- ===== src/Led/Requests.antt =====
-- Several requests of a user, one after the other: led_manager.c writes each into the FIFO, and
-- `Led_Controller` in led_controller.c of LED_Manager has read it before the next comes.
use ble_parking_gate_way.Prelude.{
  ℕ, ◌+◌, ◌<◌, ◌≡◌, refl, ◌∙◌, ap, List, [], ◌∷◌, Option, Bytes, ◌==◌, if◌then◌else◌, Result, ok,
  ◌>>=◌, arith,
}
use ble_parking_gate_way.Receiver.Frames.{All}
use ble_parking_gate_way.Led.{
  Gpio, number_of_led, Controller, led_controller, Managed, write, led_manager,
}
use ble_parking_gate_way.Led.Message.{
  Request, request_value, request_digit, ReadsDigits, set_pin, led_manager-message,
  led_controller-set_pin,
}

-- A pin, and what is asked of it.
abbrev pub Asked : Type 0
Asked = ℕ × Request

-- What the controller makes of a call of `led_manager`; what writes nothing leaves it as it is.
abbrev pub read_by : (Bytes → Option ℕ) → Controller → Result Managed → Result Controller
read_by scan c (ok (write bytes)) = led_controller scan c bytes
read_by scan c _ = ok c

unfoldable pub serve : (Bytes → Option ℕ) → Controller → List Asked → Result Controller
serve scan c [] = ok c
serve scan c (asked ∷ rest) =
    let (pin, request) = asked in
    read_by scan c (led_manager (0x2D ∷ 0x6F ∷ []) ((0x30 + pin) ∷ []) (request_digit request ∷ []))
    >>= λ c'. serve scan c' rest

-- The state of a pin after the requests, one of which may be for it: the last one counts.
abbrev pub state_after : ℕ → ℕ → List Asked → ℕ
state_after k state [] = state
state_after k state ((pin, request) ∷ rest) =
    state_after k (if pin == k then request_value request else state) rest

abbrev pub IsInside : Asked → Type 0
IsInside asked = asked.0 < number_of_led

set_pin-state :
    (gpio : Gpio) (pin k : ℕ) (request : Request)
    → (set_pin gpio pin request k).state
      ≡ (if pin == k then request_value request else (gpio k).state)
set_pin-state gpio pin k request = ground arith

-- Where each message is read before the next is written, requests for the four pins are all served
-- without a fault, and in the end each pin has the state that the last request for it asks for; a pin
-- for which there is none keeps its state. That `sscanf` reads a decimal digit is a hypothesis.
pub serve_last_counts :
    (scan : Bytes → Option ℕ) (rs : List Asked) (c : Controller)
    → ReadsDigits scan
    → All IsInside rs
    → (end : Controller) × (serve scan c rs ≡ ok end)
      × ((k : ℕ) → (end.gpio k).state ≡ state_after k (c.gpio k).state rs)
unfolding serve
serve_last_counts scan [] c reads inside = (c, refl, λ k. refl)
serve_last_counts scan ((pin, request) ∷ rs) c reads (here, inside) =
    let wrote = led_manager-message (0x30 + pin) request in
    let (c', done, same) = led_controller-set_pin scan c pin request reads here in
    let (end, run, states) = serve_last_counts scan rs c' reads inside in
    (
      end,
      ap (λ o. read_by scan c o >>= λ d. serve scan d rs) wrote
          ∙ ap (λ o. o >>= λ d. serve scan d rs) done
          ∙ run,
      λ k.
          states k
          ∙ ap (λ state. state_after k state rs)
              (ap (λ (g : Gpio). (g k).state) same ∙ set_pin-state c.gpio pin k request),
    )
