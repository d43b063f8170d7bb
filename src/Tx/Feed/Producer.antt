-- ===== src/Tx/Feed/Producer.antt =====
-- The loop of `producerThread` of src/tx/ControlChannel.cpp, turn by turn, with the flag `m_running`.
pub mod Ends
mod Tests
use site_sim.Base.{ℕ, ◌/◌, List, [], ◌∷◌, Option, none, some, Bool, true, false, ltb, if◌then◌else◌}
use site_sim.P25.C4fm.{Arith}
use site_sim.Tx.Ring.{ring_size, ring_available, tx_chunk, tx_drain}
use site_sim.Tx.Feed.{Feed, send_frame}

-- Where the thread is: at the condition of the loop, at that of the back-off, after its sleep, at the
-- frames of a round, or at its end.
pub data Phase : Type 0 where
  tests : Phase
  backs_off : Phase
  slept : Phase
  sending : Phase
  ended : Phase

pub record Producer (Float Double : Type 0) : Type 0 where
  pub phase : Phase
  pub feed : Feed Float Double

-- A turn of the producer, with the frames that its next round would have, or of the transmitter.
pub data Turn : Type 0 where
  produces : List (List ℕ) → Turn
  transmits : Turn
  drains : Turn

module _ {Float Double : Type 0} (a : Arith Float Double) where
  abbrev pub sent_or_waits : Feed Float Double → Option (Feed Float Double) → Producer Float Double
  sent_or_waits f none = record { phase = sending; feed = f }
  sent_or_waits f (some g) = record { phase = sending; feed = g }

  abbrev pub send_next : Feed Float Double → List (List ℕ) → Producer Float Double
  send_next f [] = record { phase = tests; feed = f }
  send_next f (dibits ∷ frames) = sent_or_waits f (send_frame a f dibits frames)

  pub produce : Bool → List (List ℕ) → Phase → Feed Float Double → Producer Float Double
  produce running frames tests f = record { phase = if running then backs_off else ended; feed = f }
  produce running frames backs_off f =
      if ltb (ring_size / 2) (ring_available f.ring)
      then record { phase = slept; feed = f }
      else record { phase = sending; feed = record f { frames = frames } }
  produce running frames slept f = record { phase = if running then backs_off else ended; feed = f }
  produce running frames sending f = send_next f f.frames
  produce running frames ended f = record { phase = ended; feed = f }

  -- A schedule of turns, while `m_running` has one value.
  pub run_turns : Bool → List Turn → Producer Float Double → Producer Float Double
  run_turns running [] p = p
  run_turns running (produces frames ∷ turns) p =
      run_turns running turns (produce running frames p.phase p.feed)
  run_turns running (transmits ∷ turns) p =
      run_turns running turns
        (record p { feed = record p.feed { ring = (tx_chunk p.feed.ring).1 } })
  run_turns running (drains ∷ turns) p =
      run_turns running turns (record p { feed = record p.feed { ring = tx_drain p.feed.ring } })
