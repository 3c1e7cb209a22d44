-- ===== src/Led/Message.antt =====
-- The messages that LED_Manager/led_manager.c writes, and what LED_Manager/led_controller.c makes
-- of them.
use ble_parking_gate_way.Prelude.{
  ℕ, ◌+◌, ◌≤◌, ◌<◌, ◌≡◌, refl, ◌∙◌, ap, sym, true, false, [], ◌∷◌, ◌++◌, Option, some, Bytes,
  memcpy, ltb, take, drop, ◌==◌, if◌then◌else◌, Result, ok, fault, Fault, ◌>>=◌, arith, Holds-ok,
  Bool-cases, inl, inr,
}
use ble_parking_gate_way.Led.{
  Gpio, number_of_led, set_state, update_structure, Controller, gpio_value_of, scan_and_update,
  led_controller, Managed, write, led_manager,
}

-- What a user may ask of a pin.
pub data Request : Type 0 where
  off on toggle : Request

abbrev pub request_value : Request → ℕ
request_value off = 0
request_value on = 1
request_value toggle = 2

-- The digit that stands for it on the command line.
abbrev pub request_digit : Request → ℕ
request_digit off = 0x30
request_digit on = 0x31
request_digit toggle = 0x32

-- `sscanf` reads a number of one digit up to the zero byte.
abbrev pub ReadsDigits : (Bytes → Option ℕ) → Type 0
ReadsDigits scan = (d b : ℕ) → d ≤ 9 → scan ((0x30 + d) ∷ 0 ∷ b ∷ []) ≡ some d

-- The message for a pin of one digit.
abbrev pub message : ℕ → Request → Bytes
message digit request = 0x23 ∷ digit ∷ 0x7E ∷ request_digit request ∷ 0x21 ∷ []

abbrev pub set_pin : Gpio → ℕ → Request → Gpio
set_pin gpio pin request i = if pin == i then set_state (request_value request) (gpio i) else gpio i

pub led_manager-message :
    (digit : ℕ) (request : Request)
    → led_manager (0x2D ∷ 0x6F ∷ []) (digit ∷ []) (request_digit request ∷ [])
      ≡ ok (write (message digit request))
unfolding led_manager
led_manager-message digit off = refl
led_manager-message digit on = refl
led_manager-message digit toggle = refl

-- The controller's structures after one turn, if it has one.
abbrev pub gpio_after : Result Controller → Result Gpio
gpio_after r = r >>= (λ c. ok c.gpio)

abbrev pub received : (Bytes → Option ℕ) → Controller → Result Managed → Result Gpio
received scan c (ok (write bytes)) = gpio_after (led_controller scan c bytes)
received scan c _ = ok c.gpio

value_of_request :
    (request : Request) → gpio_value_of (request_digit request) ≡ request_value request
value_of_request off = refl
value_of_request on = refl
value_of_request toggle = refl

-- A structure stored back is the controller's.
stored :
    (r : Result Gpio) (c : Controller)
    → gpio_after (r >>= (λ gpio. ok (record c { gpio = gpio }))) ≡ r
stored (ok gpio) c = refl
stored (fault e) c = refl

update_structure_eq :
    (gpio : Gpio) (pin : ℕ) (request : Request)
    → update_structure gpio (some pin) (gpio_value_of (request_digit request))
      ≡ (if ltb pin number_of_led then ok (set_pin gpio pin request) else fault Fault.out_of_bounds)
unfolding update_structure
update_structure_eq gpio pin request = rw (value_of_request request)

-- The controller's variables when it has scanned a message's digits.
abbrev scanned_message : Controller → ℕ → ℕ → Request → Controller
scanned_message c digit pin request = record c {
  led_fifo_buff = memcpy c.led_fifo_buff (message digit request);
  value = memcpy c.value (digit ∷ 0 ∷ []);
  gpio_number = some pin;
}

led_controller-message :
    (scan : Bytes → Option ℕ) (c : Controller) (digit pin : ℕ) (request : Request)
    → scan (digit ∷ 0 ∷ c.value 2 ∷ []) ≡ some pin
    → led_controller scan c (message digit request) ≡ (
        update_structure c.gpio (some pin) (gpio_value_of (request_digit request))
        >>= (λ gpio. ok (record (scanned_message c digit pin request) { gpio = gpio })))
unfolding led_controller scan_and_update
led_controller-message scan c digit pin request reads =
    elim (Bool-cases (c.led_fifo_buff 5 == 0x21)) [ inl h ↦ rw (h, reads) | inr h ↦ rw (h, reads) ]

-- If `sscanf` reads a decimal digit, what a user asks of a pin of one digit on the command line
-- reaches the controller: the state of exactly that pin becomes the one asked for, whatever the
-- controller's buffers held; a pin behind the four that the controller has makes it write out of
-- its array.
pub led_manager-led_controller :
    (scan : Bytes → Option ℕ) (c : Controller) (pin : ℕ) (request : Request)
    → ReadsDigits scan
    → pin ≤ 9
    → received scan c
        (led_manager (0x2D ∷ 0x6F ∷ []) ((0x30 + pin) ∷ []) (request_digit request ∷ []))
      ≡ (if ltb pin number_of_led
          then ok (set_pin c.gpio pin request)
          else fault Fault.out_of_bounds)
led_manager-led_controller scan c pin request reads small =
    ap (received scan c) (led_manager-message (0x30 + pin) request)
    ∙ (ap gpio_after (led_controller-message scan c (0x30 + pin) pin request (reads pin _ small))
        ∙ (stored _ (scanned_message c (0x30 + pin) pin request)
            ∙ update_structure_eq c.gpio pin request))

served :
    (r : Result Controller) (g : Gpio)
    → gpio_after r ≡ ok g
    → (c : Controller) × (r ≡ ok c) × (c.gpio ≡ g)
served (ok c) g h = (c, refl, Holds-ok (λ g'. c.gpio ≡ g') (ok c.gpio) h refl)
served (fault e) g h = absurd (cc)

-- What the controller makes of the message for one of the four pins.
pub led_controller-set_pin :
    (scan : Bytes → Option ℕ) (c : Controller) (pin : ℕ) (request : Request)
    → ReadsDigits scan
    → pin < number_of_led
    → (end : Controller) × (led_controller scan c (message (0x30 + pin) request) ≡ ok end)
      × (end.gpio ≡ set_pin c.gpio pin request)
led_controller-set_pin scan c pin request reads inside =
    let fits : ltb pin number_of_led ≡ true = ground arith in
    served (led_controller scan c (message (0x30 + pin) request)) (set_pin c.gpio pin request) (
      ap (received scan c) (sym (led_manager-message (0x30 + pin) request))
      ∙ led_manager-led_controller scan c pin request reads (omega arith)
      ∙ rw fits refl)

-- The bytes of two messages for pins of one digit that are in the FIFO together, the first for
-- one of the four pins, are not told apart: the first `read` of six bytes takes the head of the
-- second message with it, and what the second `read` gets is no message any more. Only the first
-- request is carried out. That `sscanf` reads a decimal digit is a hypothesis.
pub second_message_lost :
    (scan : Bytes → Option ℕ) (c : Controller) (pin second_pin : ℕ) (request second : Request)
    → ReadsDigits scan
    → pin < number_of_led
    → second_pin ≤ 9
    → (let fifo = message (0x30 + pin) request ++ message (0x30 + second_pin) second in
        gpio_after
          (led_controller scan c (take 6 fifo) >>= (λ c'. led_controller scan c' (drop 6 fifo))))
      ≡ ok (set_pin c.gpio pin request)
unfolding led_controller scan_and_update update_structure
second_message_lost scan c pin second_pin request second reads small small' =
    let fits : ltb pin number_of_led ≡ true = ground arith in
    let other : (0x30 + second_pin == 0x23) ≡ false = ground arith in
    rw (reads pin (c.value 2) (omega arith), fits, other, value_of_request request)
