-- ===== src/Tx/Ring/Tests.antt =====
-- Instances for the ring buffer of src/tx/SoapyTx.cpp.
use site_sim.Base.{ℕ, ◌≡◌, List, [], ◌∷◌, arith}
use site_sim.Tx.Ring.{Ring}
use site_sim.Tx.Ring.Refine.{RingIsValid, contents}
use site_sim.Tx.Ring.Stream.{Move, produce, transmit, run, queue_run, MovesFit, run-queue_run}

-- Two bytes wait across the end of the buffer.
abbrev wrapped : Ring
wrapped = record { cell = λ i. 7; wpos = 1; rpos = 4194303 }

wrapped-IsValid : RingIsValid wrapped
wrapped-IsValid = omega arith

abbrev three_bytes : List ℕ
three_bytes = 1 ∷ 2 ∷ 3 ∷ []

abbrev turns : List Move
turns = produce three_bytes ∷ transmit ∷ transmit ∷ []

turns-Fit : MovesFit turns
turns-Fit = (omega arith, tt)

run-queue_run_example :
    ((run turns wrapped).0 ≡ (queue_run turns (contents wrapped)).0)
    × RingIsValid (run turns wrapped).1
    × (contents (run turns wrapped).1 ≡ (queue_run turns (contents wrapped)).1)
run-queue_run_example = run-queue_run turns wrapped wrapped-IsValid turns-Fit
