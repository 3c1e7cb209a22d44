-- ===== src/Connections/Count.antt =====
-- The connected devices: the loops of `Device_conn_count` and `Upadate_Disconnection`, and what
-- they compute.
use ble_parking_gate_way.Prelude.{
  ℕ, zero, suc, ◌+◌, ◌≤◌, ◌<◌, ◌≡◌, refl, Memory, u8, ◌==◌, ap, ℕ_discrete, if◌then◌else◌, arith,
}

pub record Device : Type 0 where
  pub mac : Memory
  pub conn_handle : ℕ
  pub handle_id : ℕ
  pub status : ℕ
  pub central_id : Memory
  pub device_state : ℕ  -- the address of a text

-- `Conn_Device_List`, by index; an access tests the index against the array's size.
abbrev pub Devices : Type 0
Devices = ℕ → Device

abbrev pub conn_device_list_size : ℕ
conn_device_list_size = 6

-- `MAX_NUM_PERIPHERALS`
abbrev pub max_num_peripherals : ℕ
max_num_peripherals = 5

-- `for (; rounds; i++) if (Conn_Device_List[i].status == 1) count++;`
unfoldable pub connected_loop : ℕ → ℕ → ℕ → Devices → ℕ
connected_loop zero i count devices = count
connected_loop (suc rounds) i count devices =
    connected_loop rounds (i + 1) (if (devices i).status == 1 then count + 1 else count) devices

unfoldable pub device_conn_count : Devices → ℕ
device_conn_count devices = connected_loop 4 0 0 devices

-- The new `Slave_Count`. The assignment of 0 for an empty list is overwritten by the same count.
pub upadate_disconnection : Devices → ℕ
upadate_disconnection devices = u8 (connected_loop max_num_peripherals 0 0 devices)

-- `Conn_Device_List[handle].status = 0`
unfoldable pub disconnect : Devices → ℕ → Devices
disconnect devices handle i = if handle == i then record (devices i) { status = 0 } else devices i

-- How many of the devices `i`, `i + 1`, ..., `n` of them, are connected.
unfoldable pub tally : ℕ → ℕ → Devices → ℕ
tally zero i devices = 0
tally (suc n) i devices = (if (devices i).status == 1 then 1 else 0) + tally n (suc i) devices

pub connected_loop-tally :
    (n i count : ℕ) (devices : Devices)
    → connected_loop n i count devices ≡ count + tally n i devices
unfolding connected_loop tally
connected_loop-tally zero i count devices = omega arith
connected_loop-tally (suc n) i count devices =
    let e : i + 1 ≡ suc i = omega arith in
    rw e (
      ground (
        arith,
        connected_loop-tally n (suc i) (if (devices i).status == 1 then count + 1 else count)
            devices,
      ))

pub device_conn_count-tally : (devices : Devices) → device_conn_count devices ≡ tally 4 0 devices
unfolding device_conn_count
device_conn_count-tally devices = omega (arith, connected_loop-tally 4 0 0 devices)

pub tally-le : (n i : ℕ) (devices : Devices) → tally n i devices ≤ n
unfolding tally
tally-le zero i devices = omega arith
tally-le (suc n) i devices = ground (arith, tally-le n (suc i) devices)

-- Disconnecting a device outside the range changes no count.
pub tally-disconnect_outside :
    (n i handle : ℕ) (devices : Devices)
    → handle < i
    → tally n i (disconnect devices handle) ≡ tally n i devices
unfolding tally disconnect
tally-disconnect_outside zero i handle devices h = refl
tally-disconnect_outside (suc n) i handle devices h =
    ground (arith, tally-disconnect_outside n (suc i) handle devices)

-- Disconnecting a connected device of the range lowers the count by one.
pub tally-disconnect :
    (n i handle : ℕ) (devices : Devices)
    → i ≤ handle
    → handle < i + n
    → (devices handle).status ≡ 1
    → tally n i (disconnect devices handle) + 1 ≡ tally n i devices
unfolding tally disconnect
tally-disconnect zero i handle devices lo hi h = absurd (omega arith)
tally-disconnect (suc n) i handle devices lo hi h = elim (ℕ_discrete i handle) [
  | yes here ↦
      ground (
        arith,
        tally-disconnect_outside n (suc i) handle devices,
        ap (λ k. (devices k).status) here,
      )
  | no other ↦ ground (arith, tally-disconnect n (suc i) handle devices)
]

pub upadate_disconnection-tally :
    (devices : Devices) → upadate_disconnection devices ≡ tally max_num_peripherals 0 devices
unfolding upadate_disconnection
upadate_disconnection-tally devices =
    omega (arith, connected_loop-tally 5 0 0 devices, tally-le 5 0 devices)
