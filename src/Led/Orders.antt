-- ===== src/Led/Orders.antt =====
-- What becomes of an order in LED_Manager/led_controller.c while both threads run.
use ble_parking_gate_way.Prelude.{
  In-append_right, ℕ, zero, suc, ◌+◌, ◌*◌, ◌%◌, ◌≤◌, ◌<◌, ◌≡◌, refl, ◌∙◌, ap, sym, ◌≢◌, List, [],
  if◌then◌else◌, ◌∷◌, some, ok, ◌==◌, arith, In, first, inl, inr, ◌⊎◌, true, false, later,
  Bool-cases, In-either,
}
use ble_parking_gate_way.Led.{
  LedState, Gpio, number_of_led, update_structure, gpio_value_of, pin_on, Action, execute_on,
  execute_off, toggle_on, toggle_off, idle, pin_off, chosen, assigned, printed, Line,
}
use ble_parking_gate_way.Led.Threads.{
  Place, looking, acting, Leds, assign, next_pin, work_at, work, printed_in, order, process, Reach,
  next,
}

-- The structure of another pin stays as it is while a pin is processed.
pub assign_other :
    (gpio : Gpio) (j k : ℕ) (action : Action) → (j == k) ≡ false → assign gpio j action k ≡ gpio k
assign_other gpio j k action h = rw h

printed-here :
    (gpio : Gpio) (k : ℕ) (line : Line)
    → printed (chosen (gpio k)) k ≡ line ∷ []
    → In line (printed_in 1 (record { gpio = gpio; place = looking k }))
unfolding printed_in work_at
printed-here gpio k line h = rw h (first refl)

-- A line that is due for pin `k` is printed when the thread is there.
pub line_printed :
    (distance j k : ℕ) (gpio : Gpio) (line : Line)
    → j < number_of_led
    → k < number_of_led
    → distance ≤ 3
    → (j + distance) % 4 ≡ k
    → printed (chosen (gpio k)) k ≡ line ∷ []
    → In line (printed_in (suc (2 * distance)) (record { gpio = gpio; place = looking j }))
unfolding printed_in work_at
line_printed zero j k gpio line at bound few there due =
    let same : j ≡ k = omega arith in rw same (printed-here gpio k line due)
line_printed (suc distance) j k gpio line at bound few there due =
    let apart : (j == k) ≡ false = ground arith in
    let rounds : 2 * suc distance ≡ suc (suc (2 * distance)) = omega arith in
    let gpio' = assign gpio j (chosen (gpio j)) in
    rw rounds (
      In-append_right (printed (chosen (gpio j)) j) _ (
        line_printed distance (next_pin j) k gpio' line (ground arith) bound (omega arith)
          (ground arith)
          (ap (λ (led : LedState). printed (chosen led) k)
              (assign_other gpio j k (chosen (gpio j)) apart)
            ∙ due)))

-- An order to switch pin `k` on that stands when the thread is before a pin is carried out: if
-- no order comes in between, the thread prints the line for the pin within the seven halves of turns
-- that bring it there.
pub order_carried_out :
    (distance j k : ℕ) (gpio : Gpio)
    → j < number_of_led
    → k < number_of_led
    → distance ≤ 3
    → (j + distance) % 4 ≡ k
    → (gpio k).state ≡ 1
    → In (pin_on k) (printed_in (suc (2 * distance)) (record { gpio = gpio; place = looking j }))
unfolding chosen printed
order_carried_out distance j k gpio at bound few there on =
    line_printed distance j k gpio (pin_on k) at bound few there (rw on)

executed-state :
    (a : Action) (led : LedState)
    → (a ≡ execute_on) ⊎ (a ≡ execute_off)
    → (assigned a led).state ≡ 5
unfolding assigned
executed-state a led (inl e) = rw e
executed-state a led (inr e) = rw e

-- The second half of a turn marks an executed pin, and prints nothing.
acting-executed :
    (place : Place) (g : Gpio) (i : ℕ) (action : Action)
    → place ≡ acting i action
    → (action ≡ execute_on) ⊎ (action ≡ execute_off)
    → (((work_at place g).0.gpio i).state ≡ 5) × ((work_at place g).1 ≡ [])
unfolding work_at
acting-executed place g i action at executes =
    let hit : (i == i) ≡ true = ground arith in
    rw at (rw hit (executed-state action (g i) executes), refl)

-- Pin `i` counts as executed, and `Led_Controller_Processing` has nothing in hand for it.
abbrev NoneChosen : ℕ → Place → Type 0
NoneChosen i (looking j) = Unit
NoneChosen i (acting j action) = j ≡ i → action ≡ idle

record IsDone (i : ℕ) (place : Place) (gpio : Gpio) : Type 0 where
  executed : (gpio i).state ≡ 5
  none_chosen : NoneChosen i place

abbrev pub pin_of : Line → ℕ
pin_of (pin_on i) = i
pin_of (pin_off i) = i

printed-pin_of :
    (action : Action) (i : ℕ) {line : Line} → In line (printed action i) → pin_of line ≡ i
unfolding printed
printed-pin_of execute_on i (first e) = ap pin_of (sym e)
printed-pin_of execute_on i (later more) = elim more [ ]
printed-pin_of execute_off i (first e) = ap pin_of (sym e)
printed-pin_of execute_off i (later more) = elim more [ ]
printed-pin_of toggle_on i (first e) = ap pin_of (sym e)
printed-pin_of toggle_on i (later more) = elim more [ ]
printed-pin_of toggle_off i (first e) = ap pin_of (sym e)
printed-pin_of toggle_off i (later more) = elim more [ ]
printed-pin_of idle i h = elim h [ ]

executed-chosen : (led : LedState) → led.state ≡ 5 → chosen led ≡ idle
unfolding chosen
executed-chosen led h = rw h refl

work_at-IsDone :
    (i : ℕ) (place : Place) (gpio : Gpio)
    → IsDone i place gpio
    → IsDone i (work_at place gpio).0.place (work_at place gpio).0.gpio
unfolding work_at assigned
work_at-IsDone i (looking j) gpio h = record {
  executed = h.executed;
  none_chosen = λ here. rw here (executed-chosen (gpio i) h.executed);
}
work_at-IsDone i (acting j action) gpio h = record {
  executed = elim (Bool-cases (j == i)) [
    | inl hit ↦ rw (hit, h.none_chosen (ground arith)) h.executed
    | inr away ↦ rw away h.executed
  ];
  none_chosen = tt;
}

idle-silent : (i : ℕ) (line : Line) → In line (printed idle i) → ⊥
unfolding printed
idle-silent i line h = elim h [ ]

work_at-silent :
    (i : ℕ) (place : Place) (gpio : Gpio) (line : Line)
    → IsDone i place gpio
    → In line (work_at place gpio).1
    → pin_of line ≢ i
unfolding work_at
work_at-silent i (looking j) gpio line h now same =
    let here : j ≡ i = sym (printed-pin_of (chosen (gpio j)) j now) ∙ same in
    let none_due : chosen (gpio j) ≡ idle = rw here (executed-chosen (gpio i) h.executed) in
    idle-silent j line (rw none_due at now)
work_at-silent i (acting j action) gpio line h now same = elim now [ ]

done_silent :
    (n i : ℕ) (place : Place) (gpio : Gpio) (line : Line)
    → IsDone i place gpio
    → In line (printed_in n (record { gpio = gpio; place = place }))
    → pin_of line ≢ i
unfolding printed_in
done_silent zero i place gpio line h from = elim from [ ]
done_silent (suc n) i place gpio line h from =
    let (t, lines) = work_at place gpio in
    elim (In-either lines (printed_in n t) from) [
      | inl now ↦ work_at-silent i place gpio line h now
      | inr others ↦ done_silent n i t.place t.gpio line (work_at-IsDone i place gpio h) others
    ]

-- The lines for a pin.
abbrev pub lines_of : ℕ → List Line → List Line
lines_of i [] = []
lines_of i (line ∷ lines) = if pin_of line == i then line ∷ lines_of i lines else lines_of i lines

none-lines_of :
    (i : ℕ) (lines : List Line)
    → ((line : Line) → In line lines → pin_of line ≢ i)
    → lines_of i lines ≡ []
none-lines_of i [] h = refl
none-lines_of i (line ∷ lines) h =
    let away : (pin_of line == i) ≡ false = ground (arith, h line (first refl)) in
    rw away (none-lines_of i lines (λ other from. h other (later from)))

-- An order that is stored while `Led_Controller_Processing` is between its test of an order for the
-- same pin and the assignment that marks it executed is lost, in every reachable state and
-- whatever the order is: the next half of a turn prints nothing and leads to a reachable state in
-- which the pin counts as executed, and from there on, if no other order comes, no line for the pin is
-- printed in any number of halves of turns.
pub order_lost_between :
    {s : Leds}
    → Reach s
    → (i byte n : ℕ) (action : Action) (g : Gpio) → s.place ≡ acting i action
    → (action ≡ execute_on) ⊎ (action ≡ execute_off)
    → update_structure s.gpio (some i) (gpio_value_of byte) ≡ ok g
    → (let (t, lines) = work (record s { gpio = g }) in
        Reach t × ((t.gpio i).state ≡ 5) × (lines ≡ []) × (lines_of i (printed_in n t) ≡ []))
unfolding work_at
order_lost_between {s} r i byte n action g place executes e =
    let ordered = next r (order (some i) byte e) in
    let (five, quiet) = acting-executed s.place g i action place executes in
    let done : IsDone i (work_at s.place g).0.place (work_at s.place g).0.gpio = record {
      executed = five;
      none_chosen = rw place tt;
    } in
    let after = (work_at s.place g).0 in
    (
      next ordered process,
      five,
      quiet,
      none-lines_of i _ (λ line from. done_silent n i after.place after.gpio line done from),
    )
