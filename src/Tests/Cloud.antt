-- ===== src/Tests/Cloud.antt =====
-- The subscriber of mosquitto_client/sub_client.c at concrete inputs.
use ble_parking_gate_way.Prelude.{
  ℕ, refl, Bool, true, false, List, [], ◌∷◌, Option, some, Bytes, replicate, arith,
}
use ble_parking_gate_way.Led.{same_text}
use ble_parking_gate_way.Cloud.{Config, Publication, Subscriber}
use ble_parking_gate_way.Cloud.Session.{Session, messages-Session}
use ble_parking_gate_way.Cloud.Main.{Outcome}

-- A library that takes a filter without wildcards.
abbrev same_topic : Bytes → Bytes → Option Bool
same_topic filter topic = some (same_text filter topic)

abbrev pub config : ℕ → Config
config limit = record {
  no_retain = true;
  filter_outs = (0x61 ∷ []) ∷ [];
  verbose = false;
  msg_count = limit;
  topics = [];
  qos = 0;
}

abbrev publication : ℕ → ℕ → ℕ → Publication
publication topic byte size = record {
  retain = false;
  topic = topic ∷ [];
  payload = replicate size byte;
}

abbrev subscriber : Subscriber
subscriber = record { process_messages = true; msg_count = 0; sent = []; disconnects = 0 }

-- The first is filtered out, and the last comes after the limit of two.
abbrev publications : List Publication
publications =
    publication 0x61 0x01 12
    ∷ publication 0x62 0x02 12
    ∷ publication 0x62 0x03 10
    ∷ publication 0x62 0x04 11
    ∷ []

messages-Session_example :
    Session same_topic same_text (λ filter topic. refl) (config 2) refl 1 subscriber publications
messages-Session_example =
    messages-Session same_topic same_text (λ filter topic. refl) (config 2) refl publications
      subscriber 1 refl refl (omega arith, (omega arith, (omega arith, (omega arith, tt))))

-- Everything succeeds but the connection.
abbrev pub refused : Outcome
refused = record {
  config_load = 0;
  id_generate = 0;
  client = true;
  opts_set = 0;
  connect = 14;
  loop_forever = 0;
}
