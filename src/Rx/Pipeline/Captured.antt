-- ===== src/Rx/Pipeline/Captured.antt =====
-- What the capture of stderr leaves in `RxPipeline` of src/rx/RxPipeline.cpp, by what the system gives.
use site_sim.Base.{ℕ, ◌≡◌, Option, none, some}
use site_sim.Rx.Capture.{
  Table, System, Capture, returns, no_capture, start_stderr_capture, stop_stderr_capture,
}
use site_sim.Rx.Capture.Restore.{
  IsFresh, captured, capture, stop-start_capture, start_without_pipe, stop_nothing,
}

-- A system that gives no pipe, or a pipe and a copy of stderr in free descriptors.
pub data Gives (t : Table) : System → Type 0 where
  no_pipe : (dup : Option ℕ) → Gives t (record { pipe = none; dup = dup })
  all_three :
      (reader writer copy : ℕ)
      → IsFresh t reader writer copy
      → Gives t (record { pipe = some (reader, writer); dup = some copy })

-- A table and a capture that were made from a table by such a system.
pub data Captures (t : Table) : Table → Capture → Type 0 where
  nothing : Captures t t no_capture
  all_of :
      (reader writer copy : ℕ) (f : IsFresh t reader writer copy)
      → Captures t (captured t reader writer copy f) (capture t reader writer copy f)

pub start-Captures :
    (t : Table) (system : System)
    → Gives t system
    → (t' : Table) × (c : Capture) × (start_stderr_capture system t no_capture ≡ returns (t', c))
      × Captures t t' c
start-Captures t system (no_pipe dup) = (t, no_capture, start_without_pipe t dup, nothing)
start-Captures t system (all_three reader writer copy f) = (
  captured t reader writer copy f,
  capture t reader writer copy f,
  (stop-start_capture t reader writer copy f 0).0,
  all_of reader writer copy f,
)

pub stop-Captures :
    (t t' : Table) (c : Capture) (limit : ℕ)
    → Captures t t' c
    → stop_stderr_capture limit t' c ≡ returns (t, no_capture)
stop-Captures t t' c limit nothing = stop_nothing t limit
stop-Captures t t' c limit (all_of reader writer copy f) =
    (stop-start_capture t reader writer copy f limit).2
