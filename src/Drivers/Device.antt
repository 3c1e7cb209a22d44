-- ===== src/Drivers/Device.antt =====
-- BLE_Scanner/Drivers/UARTDriver.c: what `BLECOMOpen`, `BLECOMClose`, `BLECOMWrite` and `BLECOMRead` ask of
-- the system, in their order, and what they return. What is printed and the pause after a read are left
-- out.
use ble_parking_gate_way.Prelude.{
  ℕ, ◌≡◌, refl, ap, Bool, true, false, not, List, [], ◌∷◌, Bytes, minus_one, if◌then◌else◌,
  Bool-cases, inl, inr,
}
use ble_parking_gate_way.Drivers.{is_negative, blecomopen, blecomread}

-- The settings of `struct termios` that the file sets, by itself or through `cfmakeraw`; a flag is on or
-- off, and `csize` is the number of bits that `CSIZE` selects.
pub record Options : Type 0 where
  pub ignbrk : Bool
  pub brkint : Bool
  pub parmrk : Bool
  pub istrip : Bool
  pub inlcr : Bool
  pub igncr : Bool
  pub icrnl : Bool
  pub ixon : Bool
  pub csize : ℕ
  pub parenb : Bool
  pub clocal : Bool
  pub cread : Bool
  pub icanon : Bool
  pub echo : Bool
  pub echoe : Bool
  pub echonl : Bool
  pub iexten : Bool
  pub isig : Bool
  pub opost : Bool
  pub vmin : ℕ
  pub vtime : ℕ
  pub ispeed : ℕ
  pub ospeed : ℕ

pub data Call : Type 0 where
  -- `open`, and whether `O_NOCTTY` and `O_NDELAY` are among its flags.
  open_device : Bool → Bool → Call
  -- `fcntl(fd, F_SETFL, ...)`, and whether `O_NDELAY` is among the flags.
  set_flags : Bool → Call
  get_options : Call
  set_options : Options → Call
  pause : ℕ → Call
  flush close : Call
  write : Bytes → Call
  read : ℕ → Call

-- `B115200`, as the speed that it stands for.
abbrev pub baudrate : ℕ
baudrate = 115200

-- What `open` gets: no controlling terminal, and no waiting.
abbrev pub open_flags : Call
open_flags = open_device true true

-- `cfmakeraw` belongs to the system: what its manual states of these settings. It leaves open whether
-- VMIN and VTIME are set, too.
abbrev pub MakesRaw : (Options → Options) → Type 0
MakesRaw cfmakeraw =
    (o : Options)
    → record (cfmakeraw o) { vmin = 0; vtime = 0 } ≡ record o {
      ignbrk = false;
      brkint = false;
      parmrk = false;
      istrip = false;
      inlcr = false;
      igncr = false;
      icrnl = false;
      ixon = false;
      csize = 8;
      parenb = false;
      icanon = false;
      echo = false;
      echonl = false;
      isig = false;
      iexten = false;
      opost = false;
      vmin = 0;
      vtime = 0;
    }

-- Whether the device is left so that a read waits for a byte: by the last flags that were set.
abbrev pub read_waits : Bool → List Call → Bool
read_waits waits [] = waits
read_waits waits (open_device noctty ndelay ∷ cs) = read_waits (not ndelay) cs
read_waits waits (set_flags ndelay ∷ cs) = read_waits (not ndelay) cs
read_waits waits (c ∷ cs) = read_waits waits cs

-- The settings that are in force in the end.
abbrev pub settings : Options → List Call → Options
settings o [] = o
settings o (set_options o' ∷ cs) = settings o' cs
settings o (c ∷ cs) = settings o cs

-- What the line is to be set to.
abbrev pub raw_settings : Options
raw_settings = record {
  ignbrk = false;
  brkint = false;
  parmrk = false;
  istrip = false;
  inlcr = false;
  igncr = false;
  icrnl = false;
  ixon = false;
  csize = 8;
  parenb = false;
  clocal = true;
  cread = true;
  icanon = false;
  echo = false;
  echoe = false;
  echonl = false;
  isig = false;
  iexten = false;
  opost = false;
  vmin = 1;
  vtime = 0;
  ispeed = baudrate;
  ospeed = baudrate;
}

module _ (cfmakeraw : Options → Options) where
  -- The settings, made from those that `tcgetattr` yields.
  unfoldable pub configured : Options → Options
  configured current =
      let local = record current { clocal = true; cread = true } in
      let plain = record local { icanon = false; echo = false; echoe = false; isig = false } in
      let raw = cfmakeraw (record plain { opost = false }) in
      let unbuffered = record raw { vmin = 1; vtime = 0 } in
      record unbuffered { ospeed = baudrate; ispeed = baudrate }

  -- The result of no call but `open` is looked at.
  unfoldable pub blecomopen_calls : ℕ → Options → List Call × ℕ
  blecomopen_calls opened current = if is_negative opened then (open_flags ∷ [], minus_one) else (
    open_flags
        ∷ set_flags false
        ∷ get_options
        ∷ set_options (configured current)
        ∷ pause 2
        ∷ flush
        ∷ [],
    opened,
  )

  unbuffered : Options → Options
  unbuffered o = record o { vmin = 1; vtime = 0; ispeed = baudrate; ospeed = baudrate }

  -- Where `open` yields a descriptor, it is what is returned, a read waits for a byte, the line is read and
  -- written at the same speed, 115200, with eight bits and no parity, breaks and parity errors are not
  -- marked, bytes are not cut to seven bits, CR and NL are not mapped on input, and there is no flow control
  -- of the output by IXON, no echo, no lines, no signals, no extended input processing and no output
  -- processing, whatever the settings were before. Where it fails, no call but this `open` is made, and -1
  -- is returned. What `cfmakeraw` does is a hypothesis.
  pub blecomopen_raw :
      (opened : ℕ) (current : Options)
      → MakesRaw cfmakeraw
      → (let (calls, result) = blecomopen_calls opened current in
          (result ≡ blecomopen opened)
          × ((if is_negative opened then calls else open_flags ∷ []) ≡ open_flags ∷ [])
          × (settings current calls ≡ (if is_negative opened then current else raw_settings))
          × (read_waits false calls ≡ not (is_negative opened)))
  unfolding blecomopen_calls configured unbuffered
  blecomopen_raw opened current raw = elim (Bool-cases (is_negative opened)) [
    | inl failed ↦ rw failed (refl, refl, refl, refl)
    | inr opens ↦ rw opens (refl, refl, ap unbuffered (raw _), refl)
  ]

-- `BLECOMClose` returns 0 whatever `close` does.
abbrev pub blecomclose : List Call × ℕ
blecomclose = (close ∷ [], 0)

-- `BLECOMWrite` returns what `write` does: the number of bytes, which may be less than was asked for.
abbrev pub blecomwrite : Bytes → ℕ → List Call × ℕ
blecomwrite w_bytes written = (write w_bytes ∷ [], written)

abbrev pub blecomread_calls : ℕ → ℕ → List Call × ℕ
blecomread_calls len done = (read len ∷ [], blecomread done)
