-- ===== src/Cloud.antt =====
-- mosquitto_client/sub_client.c: the callbacks of the subscriber that takes the cloud's messages, with
-- the sending on a queue in mosquitto_client/Msg_Def.c. The
-- file is the Mosquitto project's client, with the sending on a message queue added. Its library
-- is a parameter: `matches` is what `mosquitto_topic_matches_sub` assigns to `res`, if it
-- assigns anything. What is printed is not modelled.
pub mod Session
pub mod Main
use ble_parking_gate_way.Prelude.{
  ℕ, ◌+◌, Bool, true, false, not, ◌&&◌, List, [], ◌∷◌, ◌++◌, map, Option, none, some, Bytes, u16,
  length, take, ltb, ◌==◌, if◌then◌else◌, Result, ok, fault, Fault, ◌>>=◌,
}

-- The fields of `struct mosq_config` that the callbacks read. `msg_count` is not negative, as
-- `client_config_load` leaves it.
pub record Config : Type 0 where
  pub no_retain : Bool
  pub filter_outs : List Bytes
  pub verbose : Bool
  pub msg_count : ℕ
  pub topics : List Bytes
  pub qos : ℕ

-- `struct mosquitto_message`; the payload has `payloadlen` bytes, and of what lies behind them
-- the library's interface says nothing.
pub record Publication : Type 0 where
  pub retain : Bool
  pub topic : Bytes
  pub payload : Bytes

-- The globals, what was sent on `msg_queue_id`, and how often `mosquitto_disconnect` was called.
pub record Subscriber : Type 0 where
  pub process_messages : Bool
  pub msg_count : ℕ
  pub sent : List Bytes
  pub disconnects : ℕ

-- `sys_mq_send(msg_queue_id, message->payload, 10)` reads ten bytes of the payload.
abbrev pub sent_size : ℕ
sent_size = 10

-- `message_buf_t.mtext` in mosquitto_client/Msg_Def.h
abbrev pub mtext_size : ℕ
mtext_size = 35

-- `sys_mq_send` of mosquitto_client/Msg_Def.c: `memcpy` reads `size` bytes of the buffer and writes
-- them into `mtext`.
unfoldable pub sys_mq_send : Bytes → ℕ → Result Bytes
sys_mq_send buf size =
    if ltb (length buf) (u16 size)
    then fault Fault.out_of_bounds
    else if ltb mtext_size (u16 size)
    then fault Fault.buffer_overflow
    else ok (take (u16 size) buf)

unfoldable pub send_payload : Bytes → Subscriber → Result Subscriber
send_payload payload s =
    sys_mq_send payload sent_size >>= (λ message. ok (record s { sent = s.sent ++ message ∷ [] }))

-- The branch on `cfg->verbose`.
unfoldable pub deliver : Config → Publication → Subscriber → Result Subscriber
deliver cfg message s =
    if cfg.verbose
    then ok s
    else if ltb 0 (length message.payload)
    then send_payload message.payload s
    else ok s

-- `if(cfg->msg_count>0) ...`
unfoldable pub count_message : Config → Subscriber → Subscriber
count_message cfg s =
    if ltb 0 cfg.msg_count
    then (let counted = record s { msg_count = s.msg_count + 1 } in
        if cfg.msg_count == counted.msg_count
        then record counted { process_messages = false; disconnects = s.disconnects + 1 }
        else counted)
    else s

module _ (matches : Bytes → Bytes → Option Bool) where
  -- `for(...) { mosquitto_topic_matches_sub(...); if(res) return; }`: whether the loop returns.
  -- `res` is `none` until it is assigned.
  unfoldable pub is_filtered : List Bytes → Bytes → Option Bool → Result Bool
  is_filtered [] topic res = ok false
  is_filtered (filter ∷ filters) topic res =
      let rest = λ (res : Option Bool). is_filtered filters topic res in
      elim (matches filter topic) [
        | some true ↦ ok true
        | some false ↦ rest (some false)
        | none ↦ elim res [
          | none ↦ fault Fault.uninitialised
          | some true ↦ ok true
          | some false ↦ rest (some false)
        ]
      ]

  unfoldable pub my_message_callback : Config → Publication → Subscriber → Result Subscriber
  my_message_callback cfg message s =
      if not s.process_messages
      then ok s
      else if message.retain && cfg.no_retain
      then ok s
      else is_filtered cfg.filter_outs message.topic none >>= (λ filtered.
        if filtered then ok s else deliver cfg message s >>= (λ t. ok (count_message cfg t)))

  -- The callback for each message that arrives.
  unfoldable pub messages : Config → List Publication → Subscriber → Result Subscriber
  messages cfg [] s = ok s
  messages cfg (message ∷ rest) s = my_message_callback cfg message s >>= (λ t. messages cfg rest t)

-- `my_connect_callback`: what it subscribes to.
unfoldable pub my_connect_callback : Config → ℕ → List (Bytes × ℕ)
my_connect_callback cfg result =
    if result == 0 then map (λ topic. (topic, cfg.qos)) cfg.topics else []
