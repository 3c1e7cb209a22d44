-- ===== src/Tests/Drivers.antt =====
-- BLE_Scanner/Drivers at concrete inputs.
use ble_parking_gate_way.Prelude.{
  ℕ, ◌%◌, ◌/◌, ◌+◌, ◌≡◌, ◌≢◌, refl, Bool, true, false, ◌&&◌, not, List, [], ◌∷◌, Option, none, some,
  Bytes, length, ltb, ◌==◌, if◌then◌else◌, minus_one, arith, ok, fault, Fault,
}
use ble_parking_gate_way.Drivers.{is_negative}
use ble_parking_gate_way.Drivers.Device.{
  Options, Call, open_flags, blecomopen_calls, settings, raw_settings, read_waits, blecomopen_raw,
}
use ble_parking_gate_way.Drivers.Queues.{System, ipc_private, sys_mq_reset, sys_mq_reset_keeps}
use ble_parking_gate_way.Gpio.{ble_hw_reset_init}
use ble_parking_gate_way.Gpio.Reset.{reset_calls, ble_hw_reset_init_lem}

-- A kernel that knows which keys have a queue; its number is made of the key.
abbrev Keys : Type 0
Keys = ℕ → Bool

abbrev number : ℕ → ℕ
number key = key % 2147483648

-- The key `IPC_PRIVATE` never has a queue.
abbrev has : ℕ → Keys → Bool
has key k = not (key == ipc_private) && k key

abbrev queue_of : ℕ → Keys → Option ℕ
queue_of key k = if has key k then some (number key) else none

abbrev add : ℕ → Keys → Keys
add key k other = if key == other then true else k other

abbrev msgget : ℕ → Bool → Keys → ℕ × Keys
msgget key create k =
    if key == ipc_private
    then (0, k)
    else if k key
    then (number key, k)
    else if create
    then (number key, add key k)
    else (minus_one, k)

abbrev msgctl_rmid : ℕ → Keys → Keys
msgctl_rmid qid k other = k other && not (number other == qid)

number_positive : (key : ℕ) → is_negative (number key) ≡ false
number_positive key = ground arith

queue_of-known :
    (key qid : ℕ) (k : Keys)
    → queue_of key k ≡ some qid
    → ((key == ipc_private) ≡ false) × (k key ≡ true) × (number key ≡ qid)
queue_of-known key qid k h = ground arith

get_existing :
    (key qid : ℕ) (create : Bool) (k : Keys)
    → queue_of key k ≡ some qid
    → (msgget key create k ≡ (qid, k)) × (is_negative qid ≡ false)
get_existing key qid create k h =
    let (other, e, same) = queue_of-known key qid k h in
    (rw (other, e, same) refl, rw (← same) (number_positive key))

get_failed :
    (key : ℕ) (create : Bool) (k : Keys)
    → is_negative (msgget key create k).0 ≡ true
    → (msgget key create k).0 ≡ minus_one
get_failed key create k h = ground (arith, number_positive key)

get_missing :
    (key : ℕ) (k : Keys)
    → key ≢ ipc_private
    → queue_of key k ≡ none
    → msgget key false k ≡ (minus_one, k)
get_missing key k other h = ground arith

rmid_unknown : (key : ℕ) (k : Keys) → queue_of key (msgctl_rmid minus_one k) ≡ queue_of key k
rmid_unknown key k =
    let other : (number key == minus_one) ≡ false = ground arith in rw other (ground arith)

rmid_known :
    (key qid : ℕ) (k : Keys) → queue_of key k ≡ some qid → queue_of key (msgctl_rmid qid k) ≡ none
rmid_known key qid k h =
    let (other, e, same) = queue_of-known key qid k h in
    let hit : (number key == qid) ≡ true = ground arith in rw (other, e, hit) refl

abbrev keys : System
keys = record {
  Kernel = Keys;
  queue_of = queue_of;
  msgget = msgget;
  msgctl_rmid = msgctl_rmid;
  get_existing = get_existing;
  get_failed = get_failed;
  get_missing = get_missing;
  get_private = λ other create k. refl;
  private_missing = λ k. refl;
  rmid_unknown = rmid_unknown;
  rmid_known = rmid_known;
}

-- No queue yet.
abbrev none_made : Keys
none_made key = false

sys_mq_reset_keeps_example :
    queue_of 2004 (sys_mq_reset keys 2004 (add 2004 none_made)) ≡ queue_of 2004 (add 2004 none_made)
sys_mq_reset_keeps_example = sys_mq_reset_keeps keys 2004 2004 (add 2004 none_made)

-- Numbers of up to three digits.
abbrev digits : ℕ → Bytes
digits n = (0x30 + n / 100 % 10) ∷ (0x30 + n / 10 % 10) ∷ (0x30 + n % 10) ∷ []

ble_hw_reset_init_lem_example : ble_hw_reset_init digits (λ path. true) 125 ≡ (
    if ltb 8 (length (digits 125))
    then fault Fault.buffer_overflow
    else ok (reset_calls digits (λ path. true) 125))
ble_hw_reset_init_lem_example = ble_hw_reset_init_lem digits (λ path. true) 125

-- The settings of a terminal, and a `cfmakeraw` for them.
abbrev terminal : Options
terminal = record {
  ignbrk = false;
  brkint = true;
  parmrk = false;
  istrip = true;
  inlcr = false;
  igncr = false;
  icrnl = true;
  ixon = true;
  csize = 7;
  parenb = true;
  clocal = false;
  cread = true;
  icanon = true;
  echo = true;
  echoe = true;
  echonl = false;
  isig = true;
  iexten = true;
  opost = true;
  vmin = 1;
  vtime = 0;
  ispeed = 9600;
  ospeed = 9600;
}

abbrev cfmakeraw : Options → Options
cfmakeraw o = record o {
  ignbrk = false;
  brkint = false;
  parmrk = false;
  istrip = false;
  inlcr = false;
  igncr = false;
  icrnl = false;
  ixon = false;
  csize = 8;
  parenb = false;
  icanon = false;
  echo = false;
  echonl = false;
  isig = false;
  iexten = false;
  opost = false;
}

blecomopen_raw_example :
    (let (calls, result) = blecomopen_calls cfmakeraw 3 terminal in
      (result ≡ 3)
      × (◌≡◌ {A = List Call} (open_flags ∷ []) (open_flags ∷ []))
      × (settings terminal calls ≡ raw_settings)
      × (read_waits false calls ≡ true))
blecomopen_raw_example = blecomopen_raw cfmakeraw 3 terminal (λ o. refl)
