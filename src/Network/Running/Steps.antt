-- ===== src/Network/Running/Steps.antt =====
-- The runs of Network/Running against those of Network/Bounded, in which a turn is one step.
use ble_parking_gate_way.Prelude.{ℕ, ◌≡◌, refl, ◌∷◌, ◌++◌, Bytes, if◌then◌else◌, arith}
use ble_parking_gate_way.Start.{Started}
use ble_parking_gate_way.Network.Queues.{byte, central_alone, central_takes, pipe, forward}
use ble_parking_gate_way.Network.Bounded
use ble_parking_gate_way.Network.Bounded.{Bounded, turn}
use ble_parking_gate_way.Network.Running.{
  Running, unread_bytes, sets_flag, reads_byte, ends_turn, other_turn, Later, here, next,
  between_turns,
}

module _ {limit : ℕ} {started : Started} where
  -- The turns that have ended make a run in which a turn is one step.
  pub Later-bounded :
      {s t : Running}
      → Later limit started s t
      → Bounded.Later limit started.threads s.bounded t.bounded
  Later-bounded here = Bounded.Later.here
  Later-bounded (next l (sets_flag may)) = Later-bounded l
  Later-bounded (next l (reads_byte mine clear idle same)) = Later-bounded l
  Later-bounded (next l (ends_turn step mine held)) = Bounded.Later.next (Later-bounded l) step
  Later-bounded (next l (other_turn step other)) = Bounded.Later.next (Later-bounded l) step

  -- A turn in one step is one or two steps here.
  take_turn :
      {s : Running} {t u : Bounded}
      → Later limit started s (between_turns t)
      → Bounded.Step limit started.threads t u
      → Later limit started s (between_turns u)
  take_turn l (turn (byte b e) mine room same) =
      next (next l (reads_byte mine refl refl same))
        (ends_turn (turn (byte b e) mine room same) refl refl)
  take_turn l (turn (central_alone i silent d) mine room same) =
      next l (other_turn (turn (central_alone i silent d) mine room same) refl)
  take_turn l (turn (central_takes i asked waits got d) mine room same) =
      next l (other_turn (turn (central_takes i asked waits got d) mine room same) refl)
  take_turn l (turn (pipe buff forward_data_buff waits e) mine room same) =
      next l (other_turn (turn (pipe buff forward_data_buff waits e) mine room same) refl)
  take_turn l (turn (forward buffer status replies n waits e few) mine room same) =
      next l (other_turn (turn (forward buffer status replies n waits e few) mine room same) refl)

  pub between_turns-Later :
      {s t : Bounded}
      → Bounded.Later limit started.threads s t
      → Later limit started (between_turns s) (between_turns t)
  between_turns-Later Bounded.Later.here = here
  between_turns-Later (Bounded.Later.next l step) = take_turn (between_turns-Later l) step

-- Where a turn has not ended, the bytes behind it are not read.
pub unread-behind :
    (s : Running) (b : ℕ) (left more : Bytes)
    → s.bounded.wire ≡ b ∷ left ++ more
    → unread_bytes s ≡ (if s.is_read then left else b ∷ left) ++ more
unread-behind s same = ground arith
