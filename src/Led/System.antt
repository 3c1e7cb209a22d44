-- ===== src/Led/System.antt =====
-- led_controller.c of LED_Manager as a whole: `Led_Controller` takes messages from the FIFO and
-- `Led_Controller_Processing` carries the orders out, in any order of their turns. A turn of
-- `Led_Controller_Processing` on a pin has two halves, as in Threads. `update_structure` comes last in
-- a turn of `Led_Controller`, and is its only access to `GPIO`: so a turn of it is one step.
use ble_parking_gate_way.Prelude.{
  ℕ, ◌≡◌, ◌⊎◌, inl, inr, refl, ◌∙◌, ap, sym, Option, none, Bytes, Memory, memcpy, take, ok, fault,
  Result, ◌>>=◌, Holds, Holds-ok, arith, [], ◌∷◌,
}
use mathlib.Core.Path.{subst}
use ble_parking_gate_way.Led.{
  Gpio, Controller, data_length, gpio_value_of, update_structure, scan_and_update, led_controller,
  scanned,
}
use ble_parking_gate_way.Led.Threads
use ble_parking_gate_way.Led.Threads.{Place, looking, Leds, work}

pub record System : Type 0 where
  pub controller : Controller
  pub place : Place

abbrev pub leds_of : System → Leds
leds_of s = record { gpio = s.controller.gpio; place = s.place }

-- What `Led_Controller_Processing` leaves in `GPIO`.
abbrev pub worked : System → Leds → System
worked s t = record { controller = record s.controller { gpio = t.gpio }; place = t.place }

module _ (scan : Bytes → Option ℕ) where
  pub data Step (s : System) : System → Type 0 where
    -- `Led_Controller` reads what the FIFO holds.
    receive :
        (read : Bytes) {c : Controller}
        → led_controller scan s.controller read ≡ ok c
        → Step s (record s { controller = c })
    process : Step s (worked s (work (leds_of s)).0)

  -- The start: `GPIO` is zero, and the arrays of `Led_Controller` hold anything.
  abbrev pub begin : Memory → Memory → System
  begin led_fifo_buff value = record {
    controller = record {
      led_fifo_buff = led_fifo_buff;
      value = value;
      gpio_number = none;
      gpio = Threads.begin.gpio;
    };
    place = Threads.begin.place;
  }

  pub data Reach (led_fifo_buff value : Memory) : System → Type 0 where
    here : Reach led_fifo_buff value (begin led_fifo_buff value)
    next : {s t : System} → Reach led_fifo_buff value s → Step s t → Reach led_fifo_buff value t

  -- What a turn of `Led_Controller` does to `GPIO`: nothing, or one order.
  abbrev IsOrder : Gpio → Controller → Type 0
  IsOrder gpio c =
      (c.gpio ≡ gpio)
      ⊎ ((number : Option ℕ) × (byte : ℕ) × (update_structure gpio number (gpio_value_of byte)
            ≡ ok c.gpio))

  updated-IsOrder :
      (gpio : Gpio) (number : Option ℕ) (byte : ℕ) (o : Result Gpio) (f : Gpio → Controller)
      → update_structure gpio number (gpio_value_of byte) ≡ o
      → ((g : Gpio) → (f g).gpio ≡ g)
      → Holds (IsOrder gpio) (o >>= λ g. ok (f g))
  updated-IsOrder gpio number byte (ok g) f e same = inr (number, byte, e ∙ ap ok (sym (same g)))
  updated-IsOrder gpio number byte (fault x) f e same = tt

  record Orders (gpio : Gpio) (o : Result Controller) : Type 0 where
    holds : Holds (IsOrder gpio) o

  scan_and_update-Orders :
      (c : Controller) (buff value : Memory) (byte : ℕ)
      → Orders c.gpio (scan_and_update scan c buff value byte)
  unfolding scan_and_update
  scan_and_update-Orders c buff value byte =
      let number = scanned (scan (value 0 ∷ value 1 ∷ value 2 ∷ [])) c.gpio_number in
      record { holds = updated-IsOrder c.gpio number byte _ _ refl (λ g. refl) }

  kept-Orders :
      (c : Controller) (buff : Memory) → Orders c.gpio (ok (record c { led_fifo_buff = buff }))
  kept-Orders c buff = record { holds = inl refl }

  led_controller-Orders :
      (c : Controller) (read : Bytes) → Orders c.gpio (led_controller scan c read)
  unfolding led_controller
  led_controller-Orders c read =
      let buff = memcpy c.led_fifo_buff (take data_length read) in
      ground (
        arith,
        kept-Orders c buff,
        scan_and_update-Orders c buff (memcpy c.value (buff 1 ∷ 0 ∷ [])) (buff 3),
        scan_and_update-Orders c buff (memcpy c.value (buff 1 ∷ buff 2 ∷ [])) (buff 4),
      )

  Step-simulated : {s t : System} → Step s t → Threads.Reach (leds_of s) → Threads.Reach (leds_of t)
  Step-simulated {s} (receive read {c} e) r =
      elim (Holds-ok (IsOrder s.controller.gpio) _ e
        (led_controller-Orders s.controller read).holds) [
          | inl same ↦
              subst (λ gpio. Threads.Reach (record { gpio = gpio; place = s.place })) (sym same) r
          | inr (number, byte, updated) ↦
              Threads.Reach.next r (Threads.Step.order number byte updated)
        ]
  Step-simulated process r = Threads.Reach.next r Threads.Step.process

  -- Whatever bytes the FIFO yields and in whatever order the threads take their turns: the
  -- structures and the place of `Led_Controller_Processing` are at every moment as Threads allows, where
  -- only orders of a known form change the structures from outside.
  pub Reach-leds_of :
      {led_fifo_buff value : Memory} {s : System}
      → Reach led_fifo_buff value s
      → Threads.Reach (leds_of s)
  Reach-leds_of here = Threads.Reach.here
  Reach-leds_of (next r step) = Step-simulated step (Reach-leds_of r)
