-- ===== src/Tests/Link.antt =====
-- What a controller sends on the way to a link with a peripheral.
use ble_parking_gate_way.Prelude.{refl, List, [], ◌∷◌, Bytes, arith}
use ble_parking_gate_way.Drivers.{Queue}
use ble_parking_gate_way.Receiver.Frames.{All, event_bytes}
use ble_parking_gate_way.Router.Forwarding.{Answer}
use ble_parking_gate_way.Uart.Log.{messages_on}
use ble_parking_gate_way.Uart.Answers.{
  Traffic, stray, answer, command_status, answer_payload, status_payload, IsPlain, delivered,
}
use ble_parking_gate_way.Network.Queues.Linked.{Conversation}

-- An advertisement, its address and service in these bytes.
abbrev seen : Bytes → Traffic
seen bytes = answer Answer.device_information 0x00 0x00 0x00 bytes

abbrev another : Bytes
another =
    9 ∷ 9 ∷ 9 ∷ 9 ∷ 9 ∷ 9 ∷ 0xC8 ∷ 0x0B ∷ 0x02 ∷ 0x01 ∷ 0x06 ∷ 0x11 ∷ 0x07 ∷ 0x00 ∷ 0x00 ∷ 0xDC
    ∷ 0x24 ∷ []

abbrev looked_for : Bytes
looked_for =
    1 ∷ 2 ∷ 3 ∷ 4 ∷ 5 ∷ 6 ∷ 0xC8 ∷ 0x0B ∷ 0x02 ∷ 0x01 ∷ 0x06 ∷ 0x11 ∷ 0x07 ∷ 0x9E ∷ 0xCA ∷ 0xDC
    ∷ 0x24 ∷ []

-- The status of a command of the group 0xFE.
abbrev pub status_of_command : Traffic
status_of_command = command_status 0x00 0x04 0xFE (0x00 ∷ [])

abbrev pub on_the_wire : List Traffic
on_the_wire =
    status_of_command
    ∷ stray 0x55
    ∷ seen another
    ∷ seen looked_for
    ∷ status_of_command
    ∷ answer Answer.device_discovery 0x30 0x00 0x00 (0x00 ∷ [])
    ∷ status_of_command
    ∷ answer Answer.link_established 0x00 0x00 1 (2 ∷ 3 ∷ 4 ∷ 5 ∷ 6 ∷ 0x00 ∷ 0x00 ∷ 0x00 ∷ [])
    ∷ []

pub on_the_wire-IsPlain : All IsPlain on_the_wire
on_the_wire-IsPlain = (
  (omega arith, refl, refl, refl),
  (
    (ground arith, ground arith),
    (
      (omega arith, refl, refl),
      (
        (omega arith, refl, refl),
        (
          (omega arith, refl, refl, refl),
          (
            (omega arith, refl, refl),
            ((omega arith, refl, refl, refl), ((omega arith, refl, refl), tt)),
          ),
        ),
      ),
    ),
  ),
)

abbrev status_bytes : Bytes
status_bytes = event_bytes 0xFF (status_payload 0x00 0x04 0xFE (0x00 ∷ []))

pub on_the_wire-Conversation :
    Conversation
      (1 ∷ 2 ∷ 3 ∷ 4 ∷ 5 ∷ 6 ∷ [])
      (messages_on Queue.command_resp (delivered on_the_wire))
on_the_wire-Conversation = record {
  first = status_bytes;
  before = event_bytes 0xFF (answer_payload Answer.device_information 0x00 0x00 0x00 another) ∷ [];
  advertised =
      event_bytes 0xFF (answer_payload Answer.device_information 0x00 0x00 0x00 looked_for);
  between = status_bytes ∷ [];
  ended = event_bytes 0xFF (answer_payload Answer.device_discovery 0x30 0x00 0x00 (0x00 ∷ []));
  after = status_bytes ∷ [];
  linked = event_bytes 0xFF (
      answer_payload Answer.link_established 0x00 0x00 1
        (2 ∷ 3 ∷ 4 ∷ 5 ∷ 6 ∷ 0x00 ∷ 0x00 ∷ 0x00 ∷ []));
  whole = refl;
  before_other = (λ b. refl, tt);
  advertised_shows = λ b. refl;
  address_of = λ b. refl;
  between_other = (λ b. refl, tt);
  ended_shows = λ b. refl;
  after_other = (λ b. refl, tt);
  linked_shows = λ b. refl;
}
