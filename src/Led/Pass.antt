-- ===== src/Led/Pass.antt =====
-- What the turns of `Led_Controller_Processing` in LED_Manager/led_controller.c do to the pins.
use ble_parking_gate_way.Prelude.{
  ℕ, zero, suc, ◌≤◌, ◌<◌, ◌≡◌, refl, false, List, [], ◌++◌, ltb, ◌==◌, if◌then◌else◌, arith, ◌⊎◌,
  inl, inr,
}
use ble_parking_gate_way.Led.{
  LedState, Gpio, number_of_led, set_state, Line, chosen, assigned, printed, idle, processing_loop,
  led_controller_processing,
}

-- A structure once its pin has been processed.
abbrev pub processed : LedState → LedState
processed led = assigned (chosen led) led

-- The lines of a pin when its structure is processed.
abbrev pub lines_of : Gpio → ℕ → List Line
lines_of gpio i = printed (chosen (gpio i)) i

-- A turn processes the structures of the four pins, each by itself, and prints their lines in the
-- order of the pins; it touches nothing behind them.
pub processing-processed :
    (gpio : Gpio)
    → ((i : ℕ)
        → (led_controller_processing gpio).0 i
          ≡ (if ltb i number_of_led then processed (gpio i) else gpio i))
      × ((led_controller_processing gpio).1
          ≡ lines_of gpio 0 ++ (lines_of gpio 1 ++ (lines_of gpio 2 ++ (lines_of gpio 3 ++ []))))
unfolding processing_loop
processing-processed gpio = (each, refl)
  where
    each :
        (i : ℕ)
        → (led_controller_processing gpio).0 i
          ≡ (if ltb i number_of_led then processed (gpio i) else gpio i)
    each zero = refl
    each (suc zero) = refl
    each (suc (suc zero)) = refl
    each (suc (suc (suc zero))) = refl
    each (suc (suc (suc (suc i)))) =
        let behind : ltb (suc (suc (suc (suc i)))) number_of_led ≡ false = ground arith in
        let zeroth : (0 == suc (suc (suc (suc i)))) ≡ false = ground arith in
        let first : (1 == suc (suc (suc (suc i)))) ≡ false = ground arith in
        let second : (2 == suc (suc (suc (suc i)))) ≡ false = ground arith in
        let third : (3 == suc (suc (suc (suc i)))) ≡ false = ground arith in
        rw (behind, third, second, first, zeroth)

-- An order to switch, or one that is executed.
abbrev pub IsOrder : ℕ → Type 0
IsOrder state = (state ≤ 1) ⊎ (state ≡ 5)

chosen_once :
    (state direction flag : ℕ)
    → IsOrder state
    → chosen (processed (record { state = state; direction = direction; flag = flag })) ≡ idle
unfolding chosen assigned
chosen_once zero direction flag h = refl
chosen_once (suc zero) direction flag h = refl
chosen_once (suc (suc n)) direction flag (inl h) = ground arith
chosen_once (suc (suc n)) direction flag (inr h) = rw h

-- An order to switch a pin on or off is carried out once: when each of the four pins has such an
-- order, or one that is executed, the second of two turns prints nothing.
pub processing_again :
    (gpio : Gpio)
    → ((i : ℕ) → i < number_of_led → IsOrder (gpio i).state)
    → (led_controller_processing (led_controller_processing gpio).0).1 ≡ []
unfolding processing_loop printed
processing_again gpio orders =
    let once = λ (i : ℕ) (h : i < number_of_led).
      chosen_once (gpio i).state (gpio i).direction (gpio i).flag (orders i h) in
    rw (once 0 (omega arith), once 1 (omega arith), once 2 (omega arith), once 3 (omega arith))

abbrev pub toggling : ℕ → ℕ → LedState
toggling direction flag = record { state = 2; direction = direction; flag = flag }

-- The two threads share the structures without a lock. When a new value is stored between the test
-- of an order and the assignment that marks it executed, the new order is lost: the next turn does
-- nothing for the pin.
pub order_lost :
    (led : LedState) (gpio_value : ℕ)
    → led.state ≤ 1
    → chosen (assigned (chosen led) (set_state gpio_value led)) ≡ idle
unfolding chosen assigned
order_lost led gpio_value h = go led.state led.direction led.flag h
  where
    go :
        (state direction flag : ℕ)
        → state ≤ 1
        → (let order : LedState = record { state = state; direction = direction; flag = flag } in
            chosen (assigned (chosen order) (set_state gpio_value order)) ≡ idle)
    go zero direction flag h = refl
    go (suc zero) direction flag h = refl
    go (suc (suc n)) direction flag h = ground arith
