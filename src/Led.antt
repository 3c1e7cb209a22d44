-- ===== src/Led.antt =====
-- LED_Manager: the command line of led_manager.c, and the two threads of led_controller.c.
-- `sscanf(value, "%d", &gpio_number)` belongs to the C library: it is the parameter `scan`, which
-- gets the three bytes of `value` and yields the number, if there is one. What the functions print
-- is not modelled, but for the lines of `pin_ON` and `pin_OFF`, which are all that these two do.
pub mod Message
pub mod Pass
pub mod Threads
pub mod Orders
pub mod System
pub mod Session
pub mod Requests
use ble_parking_gate_way.Prelude.{
  ℕ, zero, suc, ◌+◌, Bool, true, false, ◌&&◌, ◌||◌, List, [], ◌∷◌, ◌++◌, Option, none, some, Bytes,
  Memory, memcpy, update, ltb, length, take, ◌==◌, if◌then◌else◌, Result, ok, fault, Fault, ◌>>=◌,
}

-- `struct LED_STATE`
pub record LedState : Type 0 where
  pub state : ℕ
  pub direction : ℕ
  pub flag : ℕ

-- `GPIO`, by index
abbrev pub Gpio : Type 0
Gpio = ℕ → LedState

abbrev pub number_of_led : ℕ
number_of_led = 4

-- How many bytes a `read` takes at most.
abbrev pub data_length : ℕ
data_length = 6

abbrev pub set_state : ℕ → LedState → LedState
set_state gpio_value led = record led { state = gpio_value }

-- `GPIO[gpio_number].state = gpio_value`; the number is `none` where it was never assigned.
unfoldable pub update_structure : Gpio → Option ℕ → ℕ → Result Gpio
update_structure gpio none gpio_value = fault Fault.uninitialised
update_structure gpio (some gpio_number) gpio_value =
    if ltb gpio_number number_of_led
    then ok (λ i. if gpio_number == i then set_state gpio_value (gpio i) else gpio i)
    else fault Fault.out_of_bounds

-- The variables of `Led_Controller`, and `GPIO`.
pub record Controller : Type 0 where
  pub led_fifo_buff : Memory
  pub value : Memory
  pub gpio_number : Option ℕ
  pub gpio : Gpio

abbrev pub scanned : Option ℕ → Option ℕ → Option ℕ
scanned (some number) old = some number
scanned none old = old

abbrev pub gpio_value_of : ℕ → ℕ
gpio_value_of byte = if byte == 0x31 then 1 else if byte == 0x32 then 2 else 0

-- One turn of `Led_Controller`'s loop, for the bytes that the FIFO holds.
module _ (scan : Bytes → Option ℕ) where
  -- `sscanf`, and `update_structure` with the result
  unfoldable pub scan_and_update : Controller → Memory → Memory → ℕ → Result Controller
  scan_and_update c buff value byte =
      let number = scanned (scan (value 0 ∷ value 1 ∷ value 2 ∷ [])) c.gpio_number in
      update_structure c.gpio number (gpio_value_of byte) >>= (λ gpio.
        ok (record { led_fifo_buff = buff; value = value; gpio_number = number; gpio = gpio }))

  unfoldable pub led_controller : Controller → Bytes → Result Controller
  led_controller c read =
      let buff = memcpy c.led_fifo_buff (take data_length read) in
      if buff 0 == 0x23 && (buff 5 == 0x21 || buff 4 == 0x21)
      then (if buff 2 == 0x7E
          then scan_and_update c buff (memcpy c.value (buff 1 ∷ 0 ∷ [])) (buff 3)
          else if buff 3 == 0x7E
          then scan_and_update c buff (memcpy c.value (buff 1 ∷ buff 2 ∷ [])) (buff 4)
          else ok (record c { led_fifo_buff = buff }))
      else ok (record c { led_fifo_buff = buff })

-- The line that `pin_ON` or `pin_OFF` prints for a pin.
pub data Line : Type 0 where
  pin_on pin_off : ℕ → Line

-- What `Led_Controller_Processing` does for a pin once it has read its structure: the line, and
-- the assignment that follows it.
pub data Action : Type 0 where
  execute_on execute_off toggle_on toggle_off idle : Action

unfoldable pub chosen : LedState → Action
chosen led =
    if led.state == 1
    then execute_on
    else if led.state == 0
    then execute_off
    else if led.state == 2 && led.flag == 1
    then toggle_on
    else if led.state == 2 && led.flag == 0
    then toggle_off
    else idle

unfoldable pub assigned : Action → LedState → LedState
assigned execute_on led = record led { state = 5 }
assigned execute_off led = record led { state = 5 }
assigned toggle_on led = record led { flag = 0 }
assigned toggle_off led = record led { flag = 1 }
assigned idle led = led

unfoldable pub printed : Action → ℕ → List Line
printed execute_on i = pin_on i ∷ []
printed execute_off i = pin_off i ∷ []
printed toggle_on i = pin_on i ∷ []
printed toggle_off i = pin_off i ∷ []
printed idle i = []

-- `for (; rounds; i++) ...` of `Led_Controller_Processing`
unfoldable pub processing_loop : ℕ → ℕ → Gpio → Gpio × List Line
processing_loop zero i gpio = (gpio, [])
processing_loop (suc rounds) i gpio =
    let action = chosen (gpio i) in
    let gpio' = λ (j : ℕ). if i == j then assigned action (gpio j) else gpio j in
    let (final, lines) = processing_loop rounds (i + 1) gpio' in (final, printed action i ++ lines)

-- A turn of the thread's loop.
abbrev pub led_controller_processing : Gpio → Gpio × List Line
led_controller_processing gpio = processing_loop number_of_led 0 gpio

-- What led_manager.c does for three arguments.
pub data Managed : Type 0 where
  system : Bytes → Bytes → Managed
  write : Bytes → Managed
  invalid_value ignored : Managed

abbrev pub same_text : Bytes → Bytes → Bool
same_text [] [] = true
same_text (a ∷ rest) (b ∷ bytes) = a == b && same_text rest bytes
same_text _ _ = false

-- "/sys/class/gpio"
abbrev gpio_class : Bytes
gpio_class =
    0x2F ∷ 0x73 ∷ 0x79 ∷ 0x73 ∷ 0x2F ∷ 0x63 ∷ 0x6C ∷ 0x61 ∷ 0x73 ∷ 0x73 ∷ 0x2F ∷ 0x67 ∷ 0x70 ∷ 0x69
    ∷ 0x6F ∷ []

-- "/sys/class/gpio/export"
abbrev pub gpio_export_path : Bytes
gpio_export_path = gpio_class ++ (0x2F ∷ 0x65 ∷ 0x78 ∷ 0x70 ∷ 0x6F ∷ 0x72 ∷ 0x74 ∷ [])

-- "/sys/class/gpio/gpio"
abbrev pub gpio_dir_path : Bytes
gpio_dir_path = gpio_class ++ (0x2F ∷ 0x67 ∷ 0x70 ∷ 0x69 ∷ 0x6F ∷ [])

-- "/direction"
abbrev pub gpio_dir_path_join : Bytes
gpio_dir_path_join = 0x2F ∷ 0x64 ∷ 0x69 ∷ 0x72 ∷ 0x65 ∷ 0x63 ∷ 0x74 ∷ 0x69 ∷ 0x6F ∷ 0x6E ∷ []

-- `sprintf` into `buffer[50]`, which holds the text and a zero byte.
abbrev pub sprintf : Bytes → Result Bytes
sprintf text = if ltb (length text) 50 then ok text else fault Fault.buffer_overflow

unfoldable pub led_manager : Bytes → Bytes → Bytes → Result Managed
led_manager argv1 argv2 argv3 =
    if same_text argv1 (0x2D ∷ 0x64 ∷ [])
    then sprintf (gpio_export_path ++ 0x20 ∷ argv2) >>= (λ export_command.
      sprintf (gpio_dir_path ++ (argv2 ++ (gpio_dir_path_join ++ 0x20 ∷ argv3)))
      >>= (λ direction_command. ok (system export_command direction_command)))
    else if same_text argv1 (0x2D ∷ 0x6F ∷ [])
    then (if same_text argv3 (0x32 ∷ [])
          || (same_text argv3 (0x31 ∷ []) || same_text argv3 (0x30 ∷ []))
        then sprintf (0x23 ∷ (argv2 ++ 0x7E ∷ (argv3 ++ 0x21 ∷ []))) >>= (λ text. ok (write text))
        else ok invalid_value)
    else ok ignored
