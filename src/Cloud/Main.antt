-- ===== src/Cloud/Main.antt =====
-- `main` of mosquitto_client/sub_client.c: which calls it makes and how it ends, given what the
-- functions of client_shared.c and of the Mosquitto library return. What is printed is left out.
use ble_parking_gate_way.Prelude.{
  ℕ, ◌≡◌, ◌<◌, ◌⊎◌, refl, Bool, true, false, not, ◌&&◌, List, [], ◌∷◌, ◌++◌, In, first, later,
  In-append_right, ltb, ◌==◌, if◌then◌else◌, arith, Bool-cases, inl, inr,
}
use ble_parking_gate_way.Cloud.{Config}

pub data Call : Type 0 where
  mq_init : ℕ → Call
  config_load config_cleanup lib_init id_generate client_new opts_set : Call
  log_callback subscribe_callback connect_callback message_callback : Call
  connect loop_forever destroy lib_cleanup : Call

-- What the calls return; `client` is whether `mosquitto_new` yields one.
pub record Outcome : Type 0 where
  pub config_load : ℕ
  pub id_generate : ℕ
  pub client : Bool
  pub opts_set : ℕ
  pub connect : ℕ
  pub loop_forever : ℕ

-- `MESSAGE_SEND_TO_PEER_DEVICE_KEY`
abbrev pub message_send_to_peer_device_key : ℕ
message_send_to_peer_device_key = 123456

-- The calls that set the callbacks, and the connection.
abbrev connecting : Bool → List Call
connecting debug =
    (if debug then log_callback ∷ subscribe_callback ∷ [] else [])
    ++ connect_callback ∷ message_callback ∷ connect ∷ []

-- The calls and the exit status; `no_conn` is the library's `MOSQ_ERR_NO_CONN`, and `debug` the
-- configuration's field.
unfoldable pub main : ℕ → Config → Bool → Outcome → List Call × ℕ
main no_conn cfg debug o =
    let loaded = mq_init message_send_to_peer_device_key ∷ config_load ∷ [] in
    let named = loaded ++ lib_init ∷ id_generate ∷ [] in
    let made = named ++ client_new ∷ [] in
    let set = made ++ opts_set ∷ [] in
    let ready = set ++ connecting debug in
    if not (o.config_load == 0)
    then (loaded ++ config_cleanup ∷ [], 1)
    else if not (o.id_generate == 0)
    then (named, 1)
    else if not o.client
    then (made ++ lib_cleanup ∷ [], 1)
    else if not (o.opts_set == 0)
    then (set, 1)
    else if not (o.connect == 0)
    then (ready, o.connect)
    else (
      ready ++ loop_forever ∷ destroy ∷ lib_cleanup ∷ [],
      if ltb 0 cfg.msg_count && o.loop_forever == no_conn then 0 else o.loop_forever,
    )

-- What is in use after the calls: the library, and a client of it.
pub record InUse : Type 0 where
  pub library : Bool
  pub client : Bool

abbrev pub used_after : InUse → List Call → InUse
used_after u [] = u
used_after u (lib_init ∷ cs) = used_after (record u { library = true }) cs
used_after u (client_new ∷ cs) = used_after (record u { client = true }) cs
used_after u (destroy ∷ cs) = used_after (record u { client = false }) cs
used_after u (lib_cleanup ∷ cs) = used_after (record u { library = false; client = false }) cs
used_after u (_ ∷ cs) = used_after u cs

abbrev pub unused : InUse
unused = record { library = false; client = false }

loops :
    (debug : Bool) (rest : List Call) → In loop_forever (connecting debug ++ loop_forever ∷ rest)
loops debug rest = In-append_right (connecting debug) (loop_forever ∷ rest) (first refl)

used-connecting :
    (debug : Bool) (u : InUse) (rest : List Call)
    → used_after u (connecting debug ++ rest) ≡ used_after u rest
used-connecting true u rest = refl
used-connecting false u rest = refl

loop_ended :
    (limit ended no_conn : ℕ)
    → (if ltb 0 limit && ended == no_conn then 0 else ended) ≡ 0
    → (ended ≡ 0) ⊎ ((0 < limit) × (ended ≡ no_conn))
loop_ended limit ended no_conn h = elim (Bool-cases (ltb 0 limit && ended == no_conn)) [
  | inl e ↦ inr (ground arith, ground arith)
  | inr e ↦ inl (rw e at h)
]

module _ (no_conn : ℕ) (cfg : Config) (debug : Bool) (o : Outcome) where
  -- What the exit status 0 tells of the calls.
  all_succeed :
      (main no_conn cfg debug o).1 ≡ 0
      → ((o.config_load == 0) ≡ true)
        × ((o.id_generate == 0) ≡ true)
        × (o.client ≡ true)
        × ((o.opts_set == 0) ≡ true)
        × ((o.connect == 0) ≡ true)
  unfolding main
  all_succeed h = ground arith

  -- An exit status of 0 means that the loop was entered and ended without an error, or, where there is a
  -- limit on the messages, for want of a connection, and that neither the library nor a client of it is
  -- left in use.
  pub main_succeeds :
      (main no_conn cfg debug o).1 ≡ 0
      → In loop_forever (main no_conn cfg debug o).0
        × (used_after unused (main no_conn cfg debug o).0 ≡ unused)
        × ((o.loop_forever ≡ 0) ⊎ ((0 < cfg.msg_count) × (o.loop_forever ≡ no_conn)))
  unfolding main
  main_succeeds h =
      let (loads, named, made, set, connected) = all_succeed h in
      (
        rw (loads, named, made, set, connected)
            (later (later (later (later (later (later (loops debug _))))))),
        rw (loads, named, made, set, connected)
            (used-connecting debug (record { library = true; client = true }) _),
        loop_ended cfg.msg_count o.loop_forever no_conn
            (rw (loads, named, made, set, connected) at h),
      )
