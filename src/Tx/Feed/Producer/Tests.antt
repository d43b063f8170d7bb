-- ===== src/Tx/Feed/Producer/Tests.antt =====
-- Instances for the loop of the producer of src/tx/ControlChannel.cpp.
use site_sim.Base.{ℕ, ◌≡◌, refl, List, [], ◌∷◌, true, false, replicate, arith}
use site_sim.P25.C4fm.Samples.{numbers}
use site_sim.Tx.Ring.{ring_available}
use site_sim.Tx.Feed.{Feed}
use site_sim.Tx.Feed.Producer.{tests, ended, Turn, produces, transmits, run_turns}
use site_sim.Tx.Feed.Producer.Ends.{run_turns_end}

abbrev feed : Feed ℕ ℕ
feed = record {
  modulator = record {
    poly = replicate 500 (1 ∷ []);
    history = replicate 9 0;
    hist_pos = 0;
    phase = 0;
  };
  ring = record { cell = λ i. 7; wpos = 2097151; rpos = 4194303 };
  frames = [];
}

abbrev frames : List (List ℕ)
frames = replicate 180 1 ∷ replicate 180 2 ∷ []

-- The flag is cleared between the two frames of a round.
abbrev before : List Turn
before = produces frames ∷ produces frames ∷ transmits ∷ produces frames ∷ []

abbrev after : List Turn
after =
    produces frames
    ∷ produces frames
    ∷ transmits
    ∷ produces frames
    ∷ produces frames
    ∷ produces frames
    ∷ []

run_turns_end_example :
    (run_turns numbers false after
      (run_turns numbers true before (record { phase = tests; feed = feed }))).phase
    ≡ ended
unfolding ring_available
run_turns_end_example =
    run_turns_end numbers before after feed (omega arith) (omega arith) (omega arith) refl refl
      (omega arith) (omega arith)
