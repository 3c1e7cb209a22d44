-- ===== src/Led/Session.antt =====
-- A user's request on its way: led_manager.c writes it into the FIFO, and the two threads of
-- led_controller.c in LED_Manager carry it out.
use ble_parking_gate_way.Prelude.{
  ℕ, suc, ◌+◌, ◌-◌, ◌%◌, ◌*◌, ◌≤◌, ◌<◌, ◌≡◌, ◌≢◌, refl, ◌∙◌, ap, true, false, [], ◌∷◌, Option,
  Bytes, Memory, In, ok, Bool-cases, inl, inr, ◌==◌, if◌then◌else◌, arith,
}
use ble_parking_gate_way.Led.{
  Gpio, number_of_led, Controller, Line, pin_on, pin_off, Action, chosen, printed, led_controller,
  write, led_manager,
}
use ble_parking_gate_way.Led.Message.{
  Request, on, off, toggle, request_value, request_digit, ReadsDigits, message, led_manager-message,
  led_controller-set_pin,
}
use ble_parking_gate_way.Led.Threads.{
  Place, looking, acting, assign, next_pin, work_at, printed_in, is_on_pin, Reach-IsProper,
}
use ble_parking_gate_way.Led.Orders.{assign_other, line_printed}
use ble_parking_gate_way.Led.System.{System, leds_of, Reach, receive, next, Reach-leds_of}

-- The line that a request is due: a pin that toggles goes on and off in turn, by its flag.
abbrev pub line_for : Request → ℕ → ℕ → Line
line_for on flag k = pin_on k
line_for off flag k = pin_off k
line_for toggle flag k = if flag == 1 then pin_on k else pin_off k

due :
    (request : Request) (gpio : Gpio) (k : ℕ)
    → (gpio k).state ≡ request_value request
    → (gpio k).flag ≤ 1
    → printed (chosen (gpio k)) k ≡ line_for request (gpio k).flag k ∷ []
unfolding printed chosen
due on gpio k h small = ground arith
due off gpio k h small = ground arith
due toggle gpio k h small = ground arith

-- How many pins lie between.
abbrev distance : ℕ → ℕ → ℕ
distance j k = (k + 4 - j) % 4

due_from_looking :
    (j k : ℕ) (gpio : Gpio) (line : Line)
    → j < number_of_led
    → k < number_of_led
    → printed (chosen (gpio k)) k ≡ line ∷ []
    → In line (printed_in (suc (2 * distance j k)) (record { gpio = gpio; place = looking j }))
due_from_looking j k gpio line at bound h =
    line_printed (distance j k) j k gpio line at bound (omega arith) (omega arith) h

other_pin :
    (i k : ℕ) (action : Action)
    → ((action' : Action) → acting i action ≢ acting k action')
    → (i == k) ≡ false
other_pin i k action away = elim (Bool-cases (i == k)) [
  | inl h ↦ let same : i ≡ k = ground arith in absurd (away action (ap (λ n. acting n action) same))
  | inr h ↦ h
]

-- From any place but the assignment to the pin itself.
due_from :
    (place : Place) (k : ℕ) (gpio : Gpio) (line : Line)
    → is_on_pin place < number_of_led
    → k < number_of_led
    → ((action : Action) → place ≢ acting k action)
    → printed (chosen (gpio k)) k ≡ line ∷ []
    → (n : ℕ) × (n ≤ 8) × In line (printed_in n (record { gpio = gpio; place = place }))
unfolding printed_in work_at
due_from (looking j) k gpio line at bound away h =
    (suc (2 * distance j k), omega arith, due_from_looking j k gpio line at bound h)
due_from (acting i action) k gpio line at bound away h =
    let apart = other_pin i k action away in
    (
      suc (suc (2 * distance (next_pin i) k)),
      omega arith,
      due_from_looking (next_pin i) k (assign gpio i action) line (ground arith) bound
          (ap (λ led. printed (chosen led) k) (assign_other gpio i k action apart) ∙ h),
    )

module _ (scan : Bytes → Option ℕ) {led_fifo_buff value : Memory} where
  -- A user's request for one of the four pins is carried out: in every reachable state of the two
  -- threads, but for the moment at which `Led_Controller_Processing` is about to assign to the same pin,
  -- what `led_manager` writes is taken by `Led_Controller` without a fault, the state that follows is
  -- reachable, and if no other message comes, the line that the request is due is printed within eight
  -- halves of turns. That `sscanf` reads a decimal digit is a hypothesis.
  pub request_carried_out :
      {s : System} (pin : ℕ) (request : Request)
      → Reach scan led_fifo_buff value s
      → ReadsDigits scan
      → pin < number_of_led
      → ((action : Action) → s.place ≢ acting pin action)
      → (text : Bytes) × (c : Controller) × (n : ℕ) × (led_manager
            (0x2D ∷ 0x6F ∷ [])
            ((0x30 + pin) ∷ [])
            (request_digit request ∷ [])
          ≡ ok (write text))
        × (led_controller scan s.controller text ≡ ok c)
        × Reach scan led_fifo_buff value (record s { controller = c })
        × (n ≤ 8)
        × In
            (line_for request (c.gpio pin).flag pin)
            (printed_in n (leds_of (record s { controller = c })))
  request_carried_out {s} pin request r reads inside away =
      let text = message (0x30 + pin) request in
      let wrote = led_manager-message (0x30 + pin) request in
      let (c, done, same) = led_controller-set_pin scan s.controller pin request reads inside in
      let r' = next r (receive text done) in
      let (proper, at) = Reach-IsProper (Reach-leds_of scan r') in
      let hit : (pin == pin) ≡ true = ground arith in
      let ordered : (c.gpio pin).state ≡ request_value request =
        ap (λ (g : Gpio). (g pin).state) same ∙ rw hit refl in
      let (n, few, prints) =
        due_from s.place pin c.gpio _ at inside away
          (due request c.gpio pin ordered (proper pin).flagged) in
      (text, c, n, wrote, done, r', few, prints)
