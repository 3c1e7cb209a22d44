-- ===== src/Gpio.antt =====
-- BLE_Scanner/Drivers/GPIOAccess.c: pins over the files of sysfs. What the functions ask of the
-- system is a list of calls; `decimal` is the text of `%d`, which belongs to the C library, and
-- `missing` is whether `access(path, F_OK)` fails. That a file cannot be opened goes unnoticed
-- there, so an open and a write of one byte are one call.
pub mod Reset
use ble_parking_gate_way.Prelude.{
  ℕ, zero, suc, ◌+◌, ◌≤◌, ◌≡◌, refl, ◌∙◌, ap, Bool, true, false, List, [], ◌∷◌, ◌++◌, length-append,
  Option, none, some, Bytes, length, ltb, if◌then◌else◌, Result, ok, fault, Fault, ◌>>=◌, arith,
}
use ble_parking_gate_way.Led.{gpio_export_path, gpio_dir_path, gpio_dir_path_join, sprintf}

pub data Call : Type 0 where
  system : Bytes → Call
  write : Bytes → ℕ → Call
  sleep : ℕ → Call

-- "echo "
abbrev pub echo : Bytes
echo = 0x65 ∷ 0x63 ∷ 0x68 ∷ 0x6F ∷ 0x20 ∷ []

-- " > "
abbrev pub into : Bytes
into = 0x20 ∷ 0x3E ∷ 0x20 ∷ []

-- "/value"
abbrev pub value_path : Bytes
value_path = 0x2F ∷ 0x76 ∷ 0x61 ∷ 0x6C ∷ 0x75 ∷ 0x65 ∷ []

-- `BLE_RESET_GPIO_DIR_OUT`, "out"
abbrev pub dir_out : Bytes
dir_out = 0x6F ∷ 0x75 ∷ 0x74 ∷ []

-- `strcpy` into `dir[5]`, which holds the text and a zero byte.
abbrev pub strcpy_dir : Bytes → Result Bytes
strcpy_dir text = if ltb (length text) 5 then ok text else fault Fault.buffer_overflow

module _ (decimal : ℕ → Bytes) where
  module _ (missing : Bytes → Bool) where
    unfoldable pub gpio_io_init : ℕ → Bytes → Result (List Call)
    gpio_io_init pin direction = strcpy_dir direction >>= (λ dir.
        sprintf (echo ++ (decimal pin ++ (into ++ gpio_export_path))) >>= (λ export_dir.
          sprintf (gpio_dir_path ++ decimal pin) >>= (λ fname.
            sprintf
              (echo ++ (dir ++ (into ++ (gpio_dir_path ++ (decimal pin ++ gpio_dir_path_join)))))
            >>= (λ gpio_dir.
                ok (
                  (if missing fname then system export_dir ∷ [] else [])
                  ++ system gpio_dir ∷ [])))))

  -- What `read` stores in `val`, if it stores anything.
  unfoldable pub gpio_io_read : (Bytes → Option ℕ) → ℕ → Result ℕ
  gpio_io_read read pin_no =
      sprintf (gpio_dir_path ++ (decimal pin_no ++ value_path))
      >>= (λ dev_path. ok (elim (read dev_path) [ some val ↦ val | none ↦ 0x30 ]))

  unfoldable pub gpio_io_write : ℕ → ℕ → Result (List Call)
  gpio_io_write pin_no val =
      sprintf (gpio_dir_path ++ (decimal pin_no ++ value_path))
      >>= (λ dev_path. ok (write dev_path val ∷ []))

  unfoldable pub ble_hw_reset : ℕ → Result (List Call)
  ble_hw_reset gpio = gpio_io_write gpio 0x30 >>= (λ low.
      gpio_io_write gpio 0x31 >>= (λ high. ok (low ++ sleep 2 ∷ (high ++ sleep 1 ∷ []))))

  unfoldable pub ble_hw_reset_init : (Bytes → Bool) → ℕ → Result (List Call)
  ble_hw_reset_init missing gpio =
      gpio_io_init missing gpio dir_out
      >>= (λ prepared. ble_hw_reset gpio >>= (λ reset. ok (prepared ++ reset)))
