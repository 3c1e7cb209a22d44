-- ===== src/Drivers.antt =====
-- BLE_Scanner/Drivers: the message queues of Msg_Def.c and the UART writes of UARTDriver.c.
-- `msgsnd`, `msgrcv` and `write` belong to the system: a sent message and a written packet are
-- recorded, and what `msgrcv` and `write` return is an argument.
pub mod Queues
pub mod Device
use ble_parking_gate_way.Prelude.{
  ℕ, ◌≡◌, refl, ◌∙◌, ap, sym, arith, Bool, true, leb, Option, none, some, Bytes, Memory, memcpy,
  cells, length, u16, minus_one, ltb, ◌==◌, if◌then◌else◌, Result, ok, fault, Fault,
}

-- An `int` below 0, by its bit pattern.
abbrev pub is_negative : ℕ → Bool
is_negative n = leb 2147483648 n

-- The queues by their keys in Msg_Def.h.
pub data Queue : Type 0 where
  command_resp write_rsp ping_pkt pipe_0 peer_device : Queue

-- The key that `sys_mq_init` gets for a queue.
abbrev pub key : Queue → ℕ
key Queue.command_resp = 1995
key Queue.write_rsp = 1998
key Queue.ping_pkt = 1999
key Queue.pipe_0 = 2000
key Queue.peer_device = 2004

abbrev pub is_same : Queue → Queue → Bool
is_same a b = key a == key b

queue_of : ℕ → Queue
queue_of n =
    if n == 1995
    then Queue.command_resp
    else if n == 1998
    then Queue.write_rsp
    else if n == 1999
    then Queue.ping_pkt
    else if n == 2000
    then Queue.pipe_0
    else Queue.peer_device

queue_of-key : (q : Queue) → queue_of (key q) ≡ q
unfolding queue_of
queue_of-key Queue.command_resp = refl
queue_of-key Queue.write_rsp = refl
queue_of-key Queue.ping_pkt = refl
queue_of-key Queue.pipe_0 = refl
queue_of-key Queue.peer_device = refl

-- No two queues have the same key.
pub is_same_eq : (a b : Queue) → is_same a b ≡ true → a ≡ b
is_same_eq a b h = sym (queue_of-key a) ∙ ap queue_of (ground arith) ∙ queue_of-key b

-- `message_buf_t.mtext`
abbrev pub mtext_size : ℕ
mtext_size = 100

-- A message under way: its queue, and `length` bytes of `mtext`.
abbrev pub Message : Type 0
Message = Queue × Bytes

-- The queue is `none` where its `int` was never assigned. `memcpy` of more than `mtext` holds
-- leaves the message buffer.
unfoldable pub sys_mq_send : Option Queue → Memory → ℕ → Result Message
sys_mq_send none buf size = fault Fault.uninitialised
sys_mq_send (some queue) buf size =
    if ltb mtext_size (u16 size)
    then fault Fault.buffer_overflow
    else ok (queue, cells buf 0 (u16 size))

pub record Received : Type 0 where
  pub buf : Memory
  pub size : ℕ
  pub status : ℕ

-- The message is `none` where `msgrcv` returns -1. The callers' buffers hold at least the 100
-- bytes that a message can have; where one does not, the caller tests for it.
unfoldable pub sys_mq_recv : Option Bytes → Memory → ℕ → Received
sys_mq_recv none buf size = record { buf = buf; size = size; status = minus_one }
sys_mq_recv (some message) buf size = record {
  buf = memcpy buf message;
  size = length message;
  status = 0;
}

-- What a command's sender reports of `BLECOMWrite(pac, idx)`, given what `write` returned.
abbrev pub blecomwrite_status : ℕ → ℕ → ℕ
blecomwrite_status written idx = if written == idx then 0 else minus_one

-- The results of `BLECOMOpen` and `BLECOMRead`, given what `open` and `read` returned.
abbrev pub blecomopen : ℕ → ℕ
blecomopen opened = if is_negative opened then minus_one else opened

abbrev pub blecomread : ℕ → ℕ
blecomread read = if is_negative read then minus_one else read
