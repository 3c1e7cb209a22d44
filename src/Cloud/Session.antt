-- ===== src/Cloud/Session.antt =====
-- What the subscriber of mosquitto_client/sub_client.c passes on of the messages that it gets.
use ble_parking_gate_way.Prelude.{
  ℕ, zero, suc, ◌+◌, ◌≤◌, ◌<◌, ◌≡◌, refl, ◌∙◌, ap, sym, Bool, true, false, not, ◌&&◌, ◌||◌, List,
  [], ◌∷◌, ◌++◌, map, append_assoc, append-nil, Option, none, some, Bytes, length, take, ltb,
  if◌then◌else◌, ok, fault, Fault, arith, Bool-cases, inl, inr,
}
use ble_parking_gate_way.Receiver.Frames.{All}
use ble_parking_gate_way.Cloud.{
  Config, Publication, Subscriber, sent_size, sys_mq_send, send_payload, deliver, count_message,
  is_filtered, my_message_callback, messages,
}

-- The matching that the library documents, as a test.
module _ (matches : Bytes → Bytes → Option Bool) (verdict : Bytes → Bytes → Bool)
    (decides : (filter topic : Bytes) → matches filter topic ≡ some (verdict filter topic)) where
  abbrev pub any_match : List Bytes → Bytes → Bool
  any_match [] topic = false
  any_match (filter ∷ filters) topic = verdict filter topic || any_match filters topic

  -- Whether the configuration lets a message through.
  abbrev pub is_wanted : Config → Publication → Bool
  is_wanted cfg message =
      not (message.retain && cfg.no_retain) && not (any_match cfg.filter_outs message.topic)

  abbrev pub wanted : Config → List Publication → List Publication
  wanted cfg [] = []
  wanted cfg (message ∷ rest) =
      if is_wanted cfg message then message ∷ wanted cfg rest else wanted cfg rest

  is_filtered-any_match :
      (filters : List Bytes) (topic : Bytes) (res : Option Bool)
      → is_filtered matches filters topic res ≡ ok (any_match filters topic)
  unfolding is_filtered
  is_filtered-any_match [] topic res = refl
  is_filtered-any_match (filter ∷ filters) topic res = elim (Bool-cases (verdict filter topic)) [
    | inl h ↦ rw (is_filtered, decides filter topic, h)
    | inr h ↦
        rw (is_filtered, decides filter topic, h) (is_filtered-any_match filters topic (some false))
  ]

  module _ (cfg : Config) (message : Publication) (s : Subscriber) where
    callback_unwanted :
        is_wanted cfg message ≡ false → my_message_callback matches cfg message s ≡ ok s
    unfolding my_message_callback
    callback_unwanted h =
        rw (is_filtered-any_match cfg.filter_outs message.topic none) (ground arith)

    callback_done : s.process_messages ≡ false → my_message_callback matches cfg message s ≡ ok s
    unfolding my_message_callback
    callback_done h = rw h

    callback_wanted :
        s.process_messages ≡ true
        → is_wanted cfg message ≡ true
        → cfg.verbose ≡ false
        → sent_size ≤ length message.payload
        → my_message_callback matches cfg message s
          ≡ ok (
              count_message cfg (record s { sent = s.sent ++ take sent_size message.payload ∷ [] }))
    unfolding my_message_callback deliver send_payload sys_mq_send
    callback_wanted on h plain long =
        rw (is_filtered-any_match cfg.filter_outs message.topic none) (ground arith)

  abbrev sent_on : Subscriber → Publication → Subscriber
  sent_on s m = record s { sent = s.sent ++ take sent_size m.payload ∷ [] }

  abbrev counted_out : Subscriber → Subscriber
  counted_out s = record s {
    msg_count = s.msg_count + 1;
    process_messages = false;
    disconnects = s.disconnects + 1;
  }

  module _ (cfg : Config) (s : Subscriber) where
    count_last : s.msg_count + 1 ≡ cfg.msg_count → count_message cfg s ≡ counted_out s
    unfolding count_message
    count_last h = ground arith

    count_more :
        s.msg_count + 1 < cfg.msg_count
        → count_message cfg s ≡ record s { msg_count = s.msg_count + 1 }
    unfolding count_message
    count_more h = ground arith

  messages_done :
      (cfg : Config) (ms : List Publication) (s : Subscriber)
      → s.process_messages ≡ false
      → messages matches cfg ms s ≡ ok s
  unfolding messages
  messages_done cfg [] s off = refl
  messages_done cfg (m ∷ ms) s off = rw (callback_done cfg m s off) (messages_done cfg ms s off)

  module _ (cfg : Config) (plain : cfg.verbose ≡ false) where
    abbrev pub IsLong : Publication → Type 0
    IsLong message = sent_size ≤ length message.payload

    abbrev pub passed_on : ℕ → List Publication → List Bytes
    passed_on n ms = map (λ (m : Publication). take sent_size m.payload) (take n (wanted cfg ms))

    abbrev pub Session : ℕ → Subscriber → List Publication → Type 0
    Session left s ms =
        (end : Subscriber) × (messages matches cfg ms s ≡ ok end)
        × (end.sent ≡ s.sent ++ passed_on (suc left) ms)
        × (end.disconnects ≡ s.disconnects + (if ltb left (length (wanted cfg ms)) then 1 else 0))

    -- Where messages are processed, `verbose` is off, the limit on the messages leaves `left + 1` to
    -- come, and all messages have ten bytes or more: of those that the configuration lets through,
    -- the first ten bytes of each of the first `left + 1` are sent, in their order, and the subscriber
    -- disconnects once, exactly when that many have come. What comes after that changes nothing.
    -- That the library decides every match is a hypothesis.
    pub messages-Session :
        (ms : List Publication) (s : Subscriber) (left : ℕ)
        → s.process_messages ≡ true
        → s.msg_count + suc left ≡ cfg.msg_count
        → All IsLong ms
        → Session left s ms
    unfolding messages
    messages-Session [] s left on counted h = (s, refl, sym (append-nil s.sent), ground arith)
    messages-Session (m ∷ ms) s zero on counted (long, t) = elim (Bool-cases (is_wanted cfg m)) [
      | inr h ↦ rw (callback_unwanted cfg m s h, h) (messages-Session ms s zero on counted t)
      | inl h ↦
          let done = counted_out (sent_on s m) in
          let called =
            callback_wanted cfg m s on h plain long
            ∙ ap ok (count_last cfg (sent_on s m) (omega arith)) in
          rw (called, h) (done, messages_done cfg ms done refl, refl, ground arith)
    ]
    messages-Session (m ∷ ms) s (suc left) on counted (long, t) =
        elim (Bool-cases (is_wanted cfg m)) [
          | inr h ↦
              rw (callback_unwanted cfg m s h, h) (messages-Session ms s (suc left) on counted t)
          | inl h ↦
              let more = record (sent_on s m) { msg_count = s.msg_count + 1 } in
              let called =
                callback_wanted cfg m s on h plain long
                ∙ ap ok (count_more cfg (sent_on s m) (omega arith)) in
              let (end, run, same, off) = messages-Session ms more left on (omega arith) t in
              rw (called, h) (end, run, same ∙ append_assoc s.sent _ _, ground arith)
        ]

    count_unlimited : (s : Subscriber) → cfg.msg_count ≡ 0 → count_message cfg s ≡ s
    unfolding count_message
    count_unlimited s h = ground arith

    -- Without a limit, the first ten bytes of each message that the configuration lets through are
    -- sent, in their order, and the subscriber never disconnects; the messages have ten bytes or
    -- more.
    pub messages_unlimited :
        (ms : List Publication) (s : Subscriber)
        → s.process_messages ≡ true
        → cfg.msg_count ≡ 0
        → All IsLong ms
        → messages matches cfg ms s
          ≡ ok (record s {
            sent = s.sent ++ map (λ (m : Publication). take sent_size m.payload) (wanted cfg ms);
          })
    unfolding messages
    messages_unlimited [] s on none_set h =
        ap (λ sent. ok (record s { sent = sent })) (sym (append-nil s.sent))
    messages_unlimited (m ∷ ms) s on none_set (long, t) = elim (Bool-cases (is_wanted cfg m)) [
      | inr h ↦ rw (callback_unwanted cfg m s h, h) (messages_unlimited ms s on none_set t)
      | inl h ↦
          let called =
            callback_wanted cfg m s on h plain long
            ∙ ap ok (count_unlimited (sent_on s m) none_set) in
          rw (called, h)
            (messages_unlimited ms (sent_on s m) on none_set t
              ∙ ap (λ sent. ok (record s { sent = sent })) (append_assoc s.sent _ _))
    ]

    -- Where messages are processed and `verbose` is off, a message of one to nine bytes that the
    -- configuration lets through makes the subscriber read behind the payload's end. That the library
    -- decides every match is a hypothesis.
    pub callback_short :
        (m : Publication) (s : Subscriber)
        → s.process_messages ≡ true
        → is_wanted cfg m ≡ true
        → 1 ≤ length m.payload
        → length m.payload ≤ 9
        → my_message_callback matches cfg m s ≡ fault Fault.out_of_bounds
    unfolding my_message_callback deliver send_payload sys_mq_send
    callback_short m s on h lo hi =
        rw (is_filtered-any_match cfg.filter_outs m.topic none) (ground arith)
