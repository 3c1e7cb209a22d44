-- ===== src/Gpio/Reset.antt =====
-- What `BLE_HW_Reset_Init` of BLE_Scanner/Drivers/GPIOAccess.c asks of the system.
use ble_parking_gate_way.Prelude.{
  ℕ, ◌≤◌, ◌≡◌, refl, ap, Bool, List, [], ◌∷◌, ◌++◌, append_assoc, length-append, Bytes, length, ltb,
  if◌then◌else◌, Result, ok, fault, Fault, ◌>>=◌, arith, Bool-cases, inl, inr,
}
use ble_parking_gate_way.Led.{gpio_export_path, gpio_dir_path, gpio_dir_path_join, sprintf}
use ble_parking_gate_way.Gpio.{
  Call, system, write, sleep, echo, into, value_path, dir_out, gpio_io_init, gpio_io_write,
  ble_hw_reset, ble_hw_reset_init,
}

sprintf_fits : (text : Bytes) → length text ≤ 49 → sprintf text ≡ ok text
sprintf_fits text h = ground arith

sprintf_overruns : (text : Bytes) → 50 ≤ length text → sprintf text ≡ fault Fault.buffer_overflow
sprintf_overruns text h = ground arith

sprintf_then :
    {B : Type 0} (text : Bytes) (f : Bytes → Result B)
    → ((t : Bytes) → f t ≡ fault Fault.buffer_overflow)
    → (sprintf text >>= f) ≡ fault Fault.buffer_overflow
sprintf_then text f h = elim (Bool-cases (ltb (length text) 50)) [
  | inl e ↦ rw e (h text)
  | inr e ↦ rw e refl
]

module _ (decimal : ℕ → Bytes) (missing : Bytes → Bool) (gpio : ℕ) where
  abbrev pub pin_path : Bytes
  pin_path = gpio_dir_path ++ decimal gpio

  -- "echo <pin> > /sys/class/gpio/export"
  abbrev pub export_command : Bytes
  export_command = echo ++ (decimal gpio ++ (into ++ gpio_export_path))

  -- "echo out > /sys/class/gpio/gpio<pin>/direction"
  abbrev pub direction_command : Bytes
  direction_command =
      echo ++ (dir_out ++ (into ++ (gpio_dir_path ++ (decimal gpio ++ gpio_dir_path_join))))

  abbrev pub pin_value : Bytes
  pin_value = gpio_dir_path ++ (decimal gpio ++ value_path)

  -- The pin is exported where it is missing, made an output, pulled low, and released.
  abbrev pub reset_calls : List Call
  reset_calls =
      (if missing pin_path then system export_command ∷ [] else [])
      ++ system direction_command
        ∷ write pin_value 0x30
        ∷ sleep 2
        ∷ write pin_value 0x31
        ∷ sleep 1
        ∷ []

  fits :
      length (decimal gpio) ≤ 8
      → (sprintf export_command ≡ ok export_command)
        × (sprintf pin_path ≡ ok pin_path)
        × (sprintf direction_command ≡ ok direction_command)
        × (sprintf pin_value ≡ ok pin_value)
  fits short =
      let e1 = length-append (decimal gpio) (into ++ gpio_export_path) in
      let e2 = length-append (decimal gpio) gpio_dir_path_join in
      let e3 = length-append (decimal gpio) value_path in
      (
        sprintf_fits export_command (omega (arith, e1)),
        sprintf_fits pin_path (omega arith),
        sprintf_fits direction_command (omega (arith, e2)),
        sprintf_fits pin_value (omega (arith, e3)),
      )

  reset_short : length (decimal gpio) ≤ 8 → ble_hw_reset_init decimal missing gpio ≡ ok reset_calls
  unfolding ble_hw_reset_init ble_hw_reset gpio_io_init gpio_io_write
  reset_short short =
      let (e1, e2, e3, e4) = fits short in
      rw (e1, e2, e3, e4)
        (ap ok (append_assoc (if missing pin_path then system export_command ∷ [] else []) _ _))

  init_long :
      9 ≤ length (decimal gpio)
      → gpio_io_init decimal missing gpio dir_out ≡ fault Fault.buffer_overflow
  unfolding gpio_io_init
  init_long long =
      let e = length-append (decimal gpio) gpio_dir_path_join in
      let over = sprintf_overruns direction_command (omega (arith, e)) in
      sprintf_then export_command _ (λ t. sprintf_then pin_path _ (λ t'. rw over refl))

  -- Where the pin's number has at most eight digits, `BLE_HW_Reset_Init` exports the pin if it is
  -- missing, makes it an output, writes 0 to it and two seconds later 1; with more digits a
  -- command overruns its buffer.
  pub ble_hw_reset_init_lem :
      ble_hw_reset_init decimal missing gpio
      ≡ (if ltb 8 (length (decimal gpio)) then fault Fault.buffer_overflow else ok reset_calls)
  ble_hw_reset_init_lem = elim (Bool-cases (ltb 8 (length (decimal gpio)))) [
    | inl long ↦ rw long (
        unfold ble_hw_reset_init in
        ap (λ o. o >>= λ prepared. ble_hw_reset decimal gpio >>= λ reset. ok (prepared ++ reset))
          (init_long (ground arith)))
    | inr short ↦ rw short (reset_short (ground arith))
  ]
