-- ===== src/Central/Calls.antt =====
-- The functions that `CentralModeThread` of BLE_Scanner/src/CentralModeThread.c calls, on the
-- thread's state. `buffer` has 256 bytes, more than a message can have.
use ble_parking_gate_way.Prelude.{
  ℕ, zero, suc, ◌-◌, ◌&&◌, Bool, [], ◌∷◌, ◌++◌, Bytes, Memory, memcpy, length, ltb, ◌==◌,
  if◌then◌else◌, minus_one, ok, fault,
}
use ble_parking_gate_way.Hci.{make16ofxy}
use ble_parking_gate_way.Hci.Event
use ble_parking_gate_way.Drivers.{sys_mq_recv, blecomwrite_status}
use ble_parking_gate_way.Connections.Count.{device_conn_count}
use ble_parking_gate_way.Commands
use ble_parking_gate_way.Central.State.{Progress, Central, Inputs, returned, fell_off, Call}

-- `BLECOMWrite(pac, idx)`
abbrev pub write : Bytes → Central → Central
write pac c = record c { written = c.written ++ pac ∷ [] }

-- `sys_mq_recv(tCommandRespQId, buffer, &size)`; its result is not looked at.
unfoldable pub receive : Central → Inputs → Central
receive c i =
    let r = sys_mq_recv i.message c.buffer c.size in record c { buffer = r.buf; size = r.size }

-- `buffer[0] == 0x04 && buffer[1] == 0xFF`
abbrev pub is_vendor_event : Memory → Bool
is_vendor_event b = b 0 == 0x04 && b 1 == 0xFF

abbrev pub event_of : Memory → ℕ
event_of b = make16ofxy (b 4) (b 3)

abbrev pub opcode_of : Memory → ℕ
opcode_of b = make16ofxy (b 7) (b 6)

-- `for (i = 0, j = last; i < rounds; i++, j--) Scanned_MAC_Buff[i] = buffer[j];`
unfoldable pub copy_down : ℕ → ℕ → Memory → Bytes
copy_down zero j b = []
copy_down (suc rounds) j b = b j ∷ copy_down rounds (j - 1) b

-- The function only computes a local `status` from the answer and ends without returning it.
unfoldable pub device_scan_rsp : Central → Inputs → Call
device_scan_rsp c i = record { central = receive c i; value = fell_off }

-- With four links there is no request, and the function ends without `return`.
unfoldable pub device_scan_req : Central → Inputs → Call
unfolding device_scan_rsp
device_scan_req c i =
    if ltb (device_conn_count i.devices) 4
    then (let sent = write Commands.device_scan_req c in
        if i.write_result == length Commands.device_scan_req
        then device_scan_rsp sent i
        else record { central = sent; value = returned minus_one })
    else record { central = c; value = fell_off }

-- The advertisement that the gateway looks for.
abbrev pub is_wanted : Memory → Bool
is_wanted b =
    make16ofxy (b 16) (b 17) == 0x0201
    && make16ofxy (b 21) (b 22) == 0x9ECA
    && make16ofxy (b 23) (b 24) == 0xDC24

-- Only the match is returned; the branches that set a local `status` end without `return`.
unfoldable pub device_scan_data : Central → Inputs → Call
device_scan_data c i =
    let r = receive c i in
    if is_vendor_event r.buffer
      && event_of r.buffer == Event.device_information
      && is_wanted r.buffer
    then record {
      central = record r { mac = memcpy r.mac (copy_down 6 13 r.buffer) };
      value = returned 2;
    }
    else record { central = r; value = fell_off }

unfoldable pub device_scan_cancel_req : Central → Inputs → Call
device_scan_cancel_req c i = record {
  central = write Commands.device_scan_cancel_req c;
  value = returned (blecomwrite_status i.write_result (length Commands.device_scan_cancel_req));
}

unfoldable pub device_scan_cancel_rsp : Central → Inputs → Call
device_scan_cancel_rsp c i =
    let r = receive c i in
    let b = r.buffer in
    record {
      central = r;
      value = returned (
          if is_vendor_event b
          then (if event_of b == Event.device_discovery
              then (if b 5 == 0x30 then 0 else minus_one)
              else minus_one)
          else minus_one);
    }

unfoldable pub device_establish_link_req : Central → Inputs → Call
device_establish_link_req c i =
    let pac = Commands.device_establish_link_req c.mac in
    record {
      central = write pac c;
      value = returned (blecomwrite_status i.write_result (length pac));
    }

unfoldable pub device_establish_link_rsp : Central → Inputs → Call
device_establish_link_rsp c i =
    let r = receive c i in
    let b = r.buffer in
    if is_vendor_event b
    then (if event_of b == Event.link_established
        then record {
          central = record r {
            mac = memcpy r.mac (copy_down 6 12 b);
            conn_handle = make16ofxy (b 14) (b 13);
          };
          value = returned 0;
        }
        else if event_of b == 0x0606
        then (if b 8 == 0x3E
            then record { central = r; value = returned 2 }
            else record { central = r; value = fell_off })
        else if opcode_of b == 0xFE08
        then record { central = r; value = returned 3 }
        else record { central = r; value = fell_off })
    else record { central = r; value = returned 5 }

unfoldable pub enable_notification : Central → Inputs → Call
enable_notification c i =
    let pac = Commands.enable_notification c.conn_handle in
    record {
      central = write pac c;
      value = returned (blecomwrite_status i.write_result (length pac));
    }

-- `bond()` writes four packets and ends in `while(1);`.
unfoldable pub bond : Central → Inputs → Central
bond c i =
    let paired = write Commands.notify (write Commands.passkey (write Commands.bond c)) in
    elim (Commands.data_led i.led_idx) [
      | ok pac ↦ record (write pac paired) { progress = Progress.spinning }
      | fault e ↦ record paired { progress = Progress.faulted e }
    ]
