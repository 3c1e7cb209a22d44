-- ===== src/Led/Threads.antt =====
-- The two threads of LED_Manager/led_controller.c on the structures that they share without a
-- lock. A turn of `Led_Controller_Processing` on a pin has two parts: it reads the structure and
-- prints, and then it assigns; the other thread may store an order in between.
use ble_parking_gate_way.Prelude.{
  ℕ, zero, suc, ◌+◌, ◌≤◌, ◌<◌, ◌≡◌, refl, List, [], ◌++◌, Option, none, some, ok, Holds, Holds-ok,
  ltb, ◌==◌, if◌then◌else◌, arith, ◌⊎◌, inl, inr, Bool-cases,
}
use ble_parking_gate_way.Led.{
  LedState, Gpio, number_of_led, set_state, update_structure, gpio_value_of, Line, Action,
  execute_on, execute_off, toggle_on, toggle_off, idle, chosen, assigned, printed,
}

-- Where `Led_Controller_Processing` is: before a pin, or about to assign.
pub data Place : Type 0 where
  looking : ℕ → Place
  acting : ℕ → Action → Place

pub record Leds : Type 0 where
  pub gpio : Gpio
  pub place : Place

abbrev pub assign : Gpio → ℕ → Action → Gpio
assign gpio i action j = if i == j then assigned action (gpio j) else gpio j

abbrev pub next_pin : ℕ → ℕ
next_pin i = if ltb (i + 1) number_of_led then i + 1 else 0

-- Half a turn of `Led_Controller_Processing`, and what it prints.
unfoldable pub work_at : Place → Gpio → Leds × List Line
work_at (looking i) gpio =
    (record { gpio = gpio; place = acting i (chosen (gpio i)) }, printed (chosen (gpio i)) i)
work_at (acting i action) gpio =
    (record { gpio = assign gpio i action; place = looking (next_pin i) }, [])

abbrev pub work : Leds → Leds × List Line
work s = work_at s.place s.gpio

-- What is printed in so many halves of turns.
unfoldable pub printed_in : ℕ → Leds → List Line
printed_in zero s = []
printed_in (suc n) s = (work s).1 ++ printed_in n (work s).0

pub data Step (s : Leds) : Leds → Type 0 where
  order :
      (number : Option ℕ) (byte : ℕ) {g : Gpio}
      → update_structure s.gpio number (gpio_value_of byte) ≡ ok g
      → Step s (record s { gpio = g })
  process : Step s (work s).0

-- The globals are zero at the start.
abbrev pub begin : Leds
begin = record { gpio = λ _. record { state = 0; direction = 0; flag = 0 }; place = looking 0 }

pub data Reach : Leds → Type 0 where
  here : Reach begin
  next : {s t : Leds} → Reach s → Step s t → Reach t

-- A structure that the processing thread knows how to read.
pub record IsProper (led : LedState) : Type 0 where
  pub known : (led.state ≤ 2) ⊎ (led.state ≡ 5)
  pub flagged : led.flag ≤ 1

assigned-IsProper : (a : Action) (led : LedState) → IsProper led → IsProper (assigned a led)
unfolding assigned
assigned-IsProper execute_on led h = record { known = inr refl; flagged = h.flagged }
assigned-IsProper execute_off led h = record { known = inr refl; flagged = h.flagged }
assigned-IsProper toggle_on led h = record { known = h.known; flagged = omega arith }
assigned-IsProper toggle_off led h = record { known = h.known; flagged = omega arith }
assigned-IsProper idle led h = h

abbrev pub is_on_pin : Place → ℕ
is_on_pin (looking i) = i
is_on_pin (acting i action) = i

record Inv (s : Leds) : Type 0 where
  proper : (i : ℕ) → IsProper (s.gpio i)
  on_pin : is_on_pin s.place < number_of_led

work_at-Inv :
    (place : Place) (gpio : Gpio)
    → Inv (record { gpio = gpio; place = place })
    → Inv (work_at place gpio).0
unfolding work_at
work_at-Inv (looking i) gpio inv = record { proper = inv.proper; on_pin = inv.on_pin }
work_at-Inv (acting i action) gpio inv = record {
  proper = λ j. elim (Bool-cases (i == j)) [
    | inl h ↦ rw h (assigned-IsProper action (gpio j) (inv.proper j))
    | inr h ↦ rw h (inv.proper j)
  ];
  on_pin = ground arith;
}

abbrev AllProper : Gpio → Type 0
AllProper gpio = (i : ℕ) → IsProper (gpio i)

set-IsProper :
    (led : LedState) (byte : ℕ) → IsProper led → IsProper (set_state (gpio_value_of byte) led)
set-IsProper led byte h = record { known = inl (ground arith); flagged = h.flagged }

updated-AllProper :
    (gpio : Gpio) (number : Option ℕ) (byte : ℕ)
    → AllProper gpio
    → Holds AllProper (update_structure gpio number (gpio_value_of byte))
unfolding update_structure
updated-AllProper gpio none byte h = tt
updated-AllProper gpio (some n) byte h = elim (Bool-cases (ltb n number_of_led)) [
  | inr outside ↦ rw outside tt
  | inl inside ↦ rw inside (λ i. elim (Bool-cases (n == i)) [
    | inl hit ↦ rw hit (set-IsProper (gpio i) byte (h i))
    | inr away ↦ rw away (h i)
  ])
]

ordered-IsProper :
    (gpio : Gpio) (number : Option ℕ) (byte : ℕ) {g : Gpio}
    → update_structure gpio number (gpio_value_of byte) ≡ ok g
    → ((i : ℕ) → IsProper (gpio i))
    → (i : ℕ) → IsProper (g i)
ordered-IsProper gpio number byte e h =
    Holds-ok AllProper (update_structure gpio number (gpio_value_of byte)) e
      (updated-AllProper gpio number byte h)

Step-Inv : {s t : Leds} → Step s t → Inv s → Inv t
Step-Inv {s} (order number byte e) inv = record {
  proper = ordered-IsProper s.gpio number byte e inv.proper;
  on_pin = inv.on_pin;
}
Step-Inv {s} process inv = work_at-Inv s.place s.gpio inv

Reach-Inv : {s : Leds} → Reach s → Inv s
Reach-Inv here = record {
  proper = λ i. record { known = inl (omega arith); flagged = omega arith };
  on_pin = omega arith;
}
Reach-Inv (next r st) = Step-Inv st (Reach-Inv r)

-- In every reachable state, whatever orders come and whenever, each structure holds a state and a
-- flag that `Led_Controller_Processing` has a branch for, and it is at one of the four pins.
pub Reach-IsProper :
    {s : Leds} → Reach s → ((i : ℕ) → IsProper (s.gpio i)) × (is_on_pin s.place < number_of_led)
Reach-IsProper r = ((Reach-Inv r).proper, (Reach-Inv r).on_pin)
