-- ===== src/Forward/Retry.antt =====
-- How often the loops of `Forward_MSG_Queue_Thread` in BLE_Scanner/src/UartCmdRxThread.c write a
-- packet, for the replies they may get.
use ble_parking_gate_way.Prelude.{
  ℕ, zero, suc, ◌+◌, ◌≤◌, ◌≡◌, refl, ◌∙◌, ap, Bool, true, false, List, [], ◌∷◌, ◌++◌, ◌&&◌, Option,
  none, some, Bytes, replicate, append_replicate, length, ltb, u8, arith,
}
use ble_parking_gate_way.Drivers.{sys_mq_recv}
use ble_parking_gate_way.Forward.{
  Sender, Replies, Outcome, cloud, counted, finished, blocked, faulted, retry, retry_count,
  after_status,
}

-- A command status event, as `sys_mq_recv` yields it from the queue of write responses.
abbrev pub status_reply : ℕ → Bytes → Option Bytes
status_reply status part = some (0x04 ∷ 0xFF ∷ 0x06 ∷ 0x7F ∷ 0x06 ∷ status ∷ part)

-- The replies that the loops tell apart.
pub data Answer : Type 0 where
  success busy disconnected unavailable : Bytes → Answer
  lost : Answer

abbrev pub reply : Answer → Option Bytes
reply (success part) = status_reply 0x00 part
reply (busy part) = status_reply 0x16 part
reply (disconnected part) = status_reply 0x14 part
reply (unavailable part) = status_reply 0x04 part
reply lost = none

abbrev pub replies_of : List Answer → Replies
replies_of [] = []
replies_of (a ∷ answers) = reply a ∷ replies_of answers

-- How a part of the thread went: whether it finished, and all that is written.
abbrev pub progress : Outcome → Option (Bool × List Bytes)
progress (finished replies s) = some (true, s.written)
progress (blocked s) = some (false, s.written)
progress (faulted e) = none

-- The attempts up to the first reply that ends a counted loop, at most `tries_left` of them.
abbrev pub attempts : ℕ → List Answer → ℕ
attempts tries_left [] = 1
attempts tries_left (success part ∷ answers) = 1
attempts tries_left (disconnected part ∷ answers) = 1
attempts tries_left (lost ∷ answers) = suc (attempts tries_left answers)
attempts tries_left (unavailable part ∷ answers) = suc (attempts retry_count answers)
attempts (suc (suc tries_left)) (busy part ∷ answers) = suc (attempts (suc tries_left) answers)
attempts _ (busy part ∷ answers) = 1

-- Whether the loop has an end among these replies.
abbrev pub ends : ℕ → List Answer → Bool
ends tries_left [] = false
ends tries_left (success part ∷ answers) = true
ends tries_left (disconnected part ∷ answers) = true
ends tries_left (lost ∷ answers) = ends tries_left answers
ends tries_left (unavailable part ∷ answers) = ends retry_count answers
ends (suc (suc tries_left)) (busy part ∷ answers) = ends (suc tries_left) answers
ends _ (busy part ∷ answers) = true

-- The loop of a counted connection, with `tries_left + 1` of its four attempts left, writes the
-- packet once for each attempt that `attempts` counts, and finishes exactly when `ends` says so:
-- a busy controller uses an attempt up, a missing reply none, a controller without buffers gives
-- all four back, and a success or a lost connection ends the loop.
pub retry-attempts :
    (pac : Bytes) (answers : List Answer) (tries_left needed : ℕ) (s : Sender)
    → suc tries_left + needed ≡ retry_count
    → progress (retry counted pac (replies_of answers) needed s)
      ≡ some (
        ends (suc tries_left) answers,
        s.written ++ replicate (attempts (suc tries_left) answers) pac,
      )
unfolding retry after_status sys_mq_recv
retry-attempts pac [] tries_left needed s e = refl
retry-attempts pac (success part ∷ answers) tries_left needed s e = refl
retry-attempts pac (disconnected part ∷ answers) tries_left needed s e = refl
retry-attempts pac (unavailable part ∷ answers) tries_left needed s e =
    let n = attempts retry_count answers in
    retry-attempts pac answers 3 0 _ refl
    ∙ ap (λ w. some (ends retry_count answers, w)) (append_replicate s.written pac n)
retry-attempts pac (lost ∷ answers) tries_left needed s e =
    let again : ltb needed retry_count ≡ true = ground arith in
    let n = attempts (suc tries_left) answers in
    rw again (
      retry-attempts pac answers tries_left needed _ e
      ∙ ap (λ w. some (ends (suc tries_left) answers, w)) (append_replicate s.written pac n))
retry-attempts pac (busy part ∷ answers) zero needed s e =
    let done : needed ≡ 3 = omega arith in rw done
retry-attempts pac (busy part ∷ answers) (suc tries_left) needed s e =
    let next : u8 (needed + 1) ≡ suc needed = omega arith in
    let again : ltb (suc needed) retry_count ≡ true = ground arith in
    let n = attempts (suc tries_left) answers in
    rw (next, again)
      (retry-attempts pac answers tries_left (suc needed) _ (omega arith)
        ∙ ap (λ w. some (ends (suc tries_left) answers, w)) (append_replicate s.written pac n))

abbrev pub is_prompt : Answer → Bool
is_prompt lost = false
is_prompt (unavailable part) = false
is_prompt _ = true

abbrev pub all_prompt : List Answer → Bool
all_prompt [] = true
all_prompt (a ∷ answers) = is_prompt a && all_prompt answers

ends_prompt :
    (answers : List Answer) (n : ℕ)
    → all_prompt answers ≡ true
    → suc n ≤ length answers
    → (ends (suc n) answers ≡ true) × (attempts (suc n) answers ≤ suc n)
ends_prompt [] n h long = ground arith
ends_prompt (success part ∷ answers) n h long = (refl, omega arith)
ends_prompt (disconnected part ∷ answers) n h long = (refl, omega arith)
ends_prompt (busy part ∷ answers) zero h long = (refl, omega arith)
ends_prompt (busy part ∷ answers) (suc n) h long =
    let (ended, few) = ends_prompt answers n h (omega arith) in (ended, omega arith)
ends_prompt (unavailable part ∷ answers) n h long = ground arith
ends_prompt (lost ∷ answers) n h long = ground arith

-- A counted loop that gets four replies or more, each of which says success, busy or
-- disconnected, finishes, and has then written at most four copies of the packet.
pub retry_finishes :
    (pac : Bytes) (answers : List Answer) (s : Sender)
    → all_prompt answers ≡ true
    → retry_count ≤ length answers
    → (progress (retry counted pac (replies_of answers) 0 s)
        ≡ some (true, s.written ++ replicate (attempts retry_count answers) pac))
      × (attempts retry_count answers ≤ retry_count)
retry_finishes pac answers s h long =
    let (ended, few) = ends_prompt answers 3 h long in
    (
      retry-attempts pac answers 3 0 s refl
          ∙ ap (λ b. some (b, s.written ++ replicate (attempts retry_count answers) pac)) ended,
      few,
    )

-- Whether a reply leaves the loop for cloud data without an attempt counted.
abbrev pub keeps_waiting : Answer → Bool
keeps_waiting (success part) = false
keeps_waiting (disconnected part) = false
keeps_waiting _ = true

abbrev pub all_keep_waiting : List Answer → Bool
all_keep_waiting [] = true
all_keep_waiting (a ∷ answers) = keeps_waiting a && all_keep_waiting answers

-- The loop for cloud data never gives up: while the replies are busy, without buffers or missing,
-- however many they are, it has written the packet once more than there were replies and has not
-- finished.
pub retry_cloud_waits :
    (pac : Bytes) (answers : List Answer) (s : Sender)
    → all_keep_waiting answers ≡ true
    → progress (retry cloud pac (replies_of answers) 0 s)
      ≡ some (false, s.written ++ replicate (suc (length answers)) pac)
unfolding retry after_status sys_mq_recv
retry_cloud_waits pac [] s h = refl
retry_cloud_waits pac (success part ∷ answers) s h = ground arith
retry_cloud_waits pac (disconnected part ∷ answers) s h = ground arith
retry_cloud_waits pac (busy part ∷ answers) s h =
    retry_cloud_waits pac answers _ h
    ∙ ap (λ w. some (false, w)) (append_replicate s.written pac (suc (length answers)))
retry_cloud_waits pac (unavailable part ∷ answers) s h =
    retry_cloud_waits pac answers _ h
    ∙ ap (λ w. some (false, w)) (append_replicate s.written pac (suc (length answers)))
retry_cloud_waits pac (lost ∷ answers) s h =
    retry_cloud_waits pac answers _ h
    ∙ ap (λ w. some (false, w)) (append_replicate s.written pac (suc (length answers)))
