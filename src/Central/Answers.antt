-- ===== src/Central/Answers.antt =====
-- The functions of BLE_Scanner/src/CentralModeThread.c that no other function calls:
-- `Enable_Notification_Rsp`, which waits for the answer to `Enable_Notification`, and
-- `Update_Conn_Status`, which enters a connection in the list.
use ble_parking_gate_way.Prelude.{
  ℕ, zero, suc, ◌≤◌, ◌<◌, ◌≡◌, refl, Bool, ◌&&◌, not, List, [], ◌∷◌, map, Option, none, some, Bytes,
  Memory, memcpy, get_or, take, length, cells, ltb, ◌==◌, if◌then◌else◌, minus_one, Result, ok,
  fault, Fault, ◌>>=◌, arith, Bool-cases, inl, inr,
}
use ble_parking_gate_way.Hci.Event
use ble_parking_gate_way.Receiver.Frames.{All}
use ble_parking_gate_way.Drivers.{sys_mq_recv}
use ble_parking_gate_way.Connections.Count.{Devices, conn_device_list_size}
use ble_parking_gate_way.Central.State.{Central}
use ble_parking_gate_way.Central.Calls.{is_vendor_event, event_of, opcode_of}

-- `sys_mq_recv(WRITE_RSP_ID, buffer, &size)`
abbrev pub receive_rsp : Option Bytes → Central → Central
receive_rsp message c =
    let r = sys_mq_recv message c.buffer c.size in record c { buffer = r.buf; size = r.size }

-- `for (; rounds; i++) ...`, on what `msgrcv` yields one after the other: the result and the
-- state, or `none` while the thread waits for a message.
unfoldable pub notification_rsp_loop : ℕ → ℕ → List (Option Bytes) → Central → Option (ℕ × Central)
notification_rsp_loop zero status messages c = some (status, c)
notification_rsp_loop (suc rounds) status [] c = none
notification_rsp_loop (suc rounds) status (message ∷ messages) c =
    let r = receive_rsp message c in
    let rest = λ (status' : ℕ). notification_rsp_loop rounds status' messages r in
    if is_vendor_event r.buffer
    then (if event_of r.buffer == Event.command_status
        then (if opcode_of r.buffer == 0xFD92 && r.buffer 5 == 0x00
            then some (0, r)
            else rest status)
        else rest minus_one)
    else some (5, r)

abbrev pub enable_notification_rsp : List (Option Bytes) → Central → Option (ℕ × Central)
enable_notification_rsp messages c = notification_rsp_loop 4 minus_one messages c

-- Whether a message is the status of the command 0xFD92, and a success.
abbrev pub grants : Memory → Bool
grants b =
    is_vendor_event b && event_of b == Event.command_status && opcode_of b == 0xFD92 && b 5 == 0x00

-- What the function makes of the messages that arrive, read one at a time by their bytes: the first
-- that is no vendor event or that grants the command decides.
abbrev pub verdict : List Memory → ℕ
verdict [] = minus_one
verdict (b ∷ bs) = if not (is_vendor_event b) then 5 else if grants b then 0 else verdict bs

abbrev pub result : Option (ℕ × Central) → Option ℕ
result (some (status, c)) = some status
result none = none

-- The bytes of a message.
abbrev pub bytes_of : Bytes → Memory
bytes_of m i = get_or m i 0

agree : (m : Bytes) (b : Memory) (i : ℕ) → i < length m → memcpy b m i ≡ bytes_of m i
agree [] b i h = absurd (omega arith)
agree (x ∷ m) b zero h = refl
agree (x ∷ m) b (suc i) h = agree m (λ j. b (suc j)) i (omega arith)

abbrev pub IsWhole : Bytes → Type 0
IsWhole m = 8 ≤ length m

loop-verdict :
    (rounds : ℕ) (ms : List Bytes) (c : Central)
    → All IsWhole ms
    → rounds ≤ length ms
    → result (notification_rsp_loop rounds minus_one (map some ms) c)
      ≡ some (verdict (map bytes_of (take rounds ms)))
unfolding notification_rsp_loop sys_mq_recv
loop-verdict zero ms c whole long = refl
loop-verdict (suc rounds) [] c whole long = absurd (omega arith)
loop-verdict (suc rounds) (m ∷ ms) c (whole, t) long =
    let at = λ (i : ℕ) (h : i < length m). agree m c.buffer i h in
    rw
      (
        at 0 (omega arith),
        at 1 (omega arith),
        at 3 (omega arith),
        at 4 (omega arith),
        at 5 (omega arith),
        at 6 (omega arith),
        at 7 (omega arith),
      )
      (ground (arith, loop-verdict rounds ms (receive_rsp (some m) c) t (omega arith)))

-- Where four messages of at least eight bytes arrive, `Enable_Notification_Rsp` ends, and its
-- result depends on these messages alone, not on what the buffer held: of the first message that
-- is no vendor event or that grants the notifications it is 5 or 0, and without one it is -1.
pub enable_notification_rsp-verdict :
    (ms : List Bytes) (c : Central)
    → All IsWhole ms
    → 4 ≤ length ms
    → result (enable_notification_rsp (map some ms) c) ≡ some (verdict (map bytes_of (take 4 ms)))
enable_notification_rsp-verdict ms c whole long = loop-verdict 4 ms c whole long

-- `for (i = 0; i < 6; i++) array[i] = bytes[i];` for an array of `size` bytes.
abbrev pub assign_all : ℕ → Memory → Bytes → Result Memory
assign_all size array bytes =
    if ltb size (length bytes) then fault Fault.out_of_bounds else ok (memcpy array bytes)

-- `Update_Conn_Status(State)`, on the list, for `Master_ID_1` and `Handle_ID_Main`. `mac` has seven
-- bytes, and `Central_ID` has four.
unfoldable pub update_conn_status : Memory → ℕ → ℕ → Central → Devices → Result Devices
update_conn_status master_id_1 handle_id_main device_state c devices =
    let n = c.conn_handle in
    if ltb n conn_device_list_size
    then assign_all 7 (devices n).mac (cells c.mac 0 6) >>= (λ mac.
      assign_all 4 (devices n).central_id (cells master_id_1 0 6) >>= (λ central_id. ok (λ i.
        if n == i
        then (record {
          mac = mac;
          conn_handle = n;
          handle_id = handle_id_main;
          status = 1;
          central_id = central_id;
          device_state = device_state;
        })
        else devices i)))
    else fault Fault.out_of_bounds

-- Whatever the state, `Update_Conn_Status` writes behind an array: the six bytes of `Master_ID_1` do
-- not fit into `Central_ID`.
pub update_conn_status_overruns :
    (master_id_1 : Memory) (handle_id_main device_state : ℕ) (c : Central) (devices : Devices)
    → update_conn_status master_id_1 handle_id_main device_state c devices
      ≡ fault Fault.out_of_bounds
unfolding update_conn_status
update_conn_status_overruns master_id_1 handle_id_main device_state c devices =
    elim (Bool-cases (ltb c.conn_handle conn_device_list_size)) [
      | inl h ↦ rw h refl
      | inr h ↦ rw h refl
    ]
