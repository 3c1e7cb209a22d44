-- ===== src/Tests/Leds.antt =====
-- LED_Manager at concrete inputs.
use ble_parking_gate_way.Prelude.{
  ℕ, ◌+◌, ◌-◌, ◌≡◌, ◌≢◌, ◌≤◌, refl, ap, inr, In, if◌then◌else◌, ◌==◌, List, [], ◌∷◌, Option, none,
  some, Bytes, arith, ok,
}
use ble_parking_gate_way.Led.{
  Gpio, set_state, Controller, pin_on, chosen, execute_off, update_structure, gpio_value_of,
  led_controller, led_manager, write, Action,
}
use ble_parking_gate_way.Led.Message.{
  on, off, toggle, ReadsDigits, set_pin, received, led_manager-led_controller,
}
use ble_parking_gate_way.Led.Threads.{
  looking, acting, Leds, work_at, work, printed_in, process, Reach, here, next,
}
use ble_parking_gate_way.Led.Orders.{lines_of, order_lost_between}
use ble_parking_gate_way.Led.System
use ble_parking_gate_way.Led.System.{leds_of, Reach-leds_of}
use ble_parking_gate_way.Led.Requests.{Asked, serve, state_after, serve_last_counts}
use ble_parking_gate_way.Led.Session.{request_carried_out}
use ble_parking_gate_way.Tests.{zeros}

-- A scanner for numbers of one digit.
abbrev scan_digit : Bytes → Option ℕ
scan_digit (d ∷ rest) = some (d - 0x30)
scan_digit [] = none

scan_digit-ReadsDigits : ReadsDigits scan_digit
scan_digit-ReadsDigits d b h = let e : 0x30 + d - 0x30 ≡ d = omega arith in ap some e

abbrev leds : Gpio
leds i = record { state = 0; direction = 0; flag = 0 }

abbrev controller : Controller
controller = record { led_fifo_buff = zeros; value = zeros; gpio_number = none; gpio = leds }

led_manager-led_controller_example :
    received scan_digit controller (led_manager (0x2D ∷ 0x6F ∷ []) (0x32 ∷ []) (0x31 ∷ []))
    ≡ ok (set_pin leds 2 on)
led_manager-led_controller_example =
    led_manager-led_controller scan_digit controller 2 on scan_digit-ReadsDigits (omega arith)

-- The pin is ordered on.
abbrev ordered : ℕ → Gpio
ordered pin i = if pin == i then set_state 1 (leds i) else leds i

ordered-update : update_structure leds (some 0) (gpio_value_of 0x31) ≡ ok (ordered 0)
unfolding update_structure
ordered-update = refl

-- The thread has looked at pin 0, whose state 0 is an order to switch off.
abbrev looked : Leds
looked = record { gpio = leds; place = acting 0 execute_off }

looked-Reach : Reach looked
unfolding work_at chosen
looked-Reach = next here process

-- The same in the program as a whole.
processed-Reach : System.Reach scan_digit zeros zeros (
    System.worked
      (System.begin scan_digit zeros zeros)
      (work (leds_of (System.begin scan_digit zeros zeros))).0)
processed-Reach = System.next System.here System.process

elsewhere : (action : Action) → looking 0 ≢ acting 2 action
elsewhere action e = cc

request_carried_out_example :
    (text : Bytes) × (c : Controller) × (n : ℕ) × (led_manager
        (0x2D ∷ 0x6F ∷ [])
        (0x32 ∷ [])
        (0x31 ∷ [])
      ≡ ok (write text))
    × (led_controller scan_digit (System.begin scan_digit zeros zeros).controller text ≡ ok c)
    × System.Reach scan_digit zeros zeros
        (record (System.begin scan_digit zeros zeros) { controller = c })
    × (n ≤ 8)
    × In
        (pin_on 2)
        (printed_in n (leds_of (record (System.begin scan_digit zeros zeros) { controller = c })))
request_carried_out_example =
    request_carried_out scan_digit 2 on System.here scan_digit-ReadsDigits (omega arith) elsewhere

order_lost_between_example :
    (let (t, lines) = work (record looked { gpio = ordered 0 }) in
      Reach t × ((t.gpio 0).state ≡ 5) × (lines ≡ []) × (lines_of 0 (printed_in 20 t) ≡ []))
order_lost_between_example =
    order_lost_between looked-Reach 0 0x31 20 execute_off (ordered 0) refl (inr refl) ordered-update

abbrev requests : List Asked
requests = (2, on) ∷ (0, toggle) ∷ (2, off) ∷ []

serve_last_counts_example :
    (end : Controller) × (serve scan_digit controller requests ≡ ok end)
    × ((k : ℕ) → (end.gpio k).state ≡ state_after k (leds k).state requests)
serve_last_counts_example =
    serve_last_counts scan_digit requests controller scan_digit-ReadsDigits
      (omega arith, (omega arith, (omega arith, tt)))
