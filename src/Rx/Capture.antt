-- ===== src/Rx/Capture.antt =====
-- `startStderrCapture` and `stopStderrCapture` of src/rx/RxPipeline.cpp, over the table of open
-- descriptors. The system chooses the descriptors: a call takes what `pipe` and `dup` give. The
-- reader's `read` returns for good once no descriptor is open on the write end of the pipe, so a
-- `join` of the reader waits until then.
pub mod Restore
pub mod Samples
mod Tests
use site_sim.Base.{ℕ, zero, suc, Option, none, some, Bool, true, false, ◌==◌, ◌||◌, if◌then◌else◌}

-- What a descriptor is open on.
pub data File : Type 0 where
  unused : File
  terminal : File
  read_end : File
  write_end : File

abbrev pub Table : Type 0
Table = ℕ → File

abbrev pub assign : Table → ℕ → File → Table
assign t fd file other = if other == fd then file else t other

abbrev pub is_write_end : File → Bool
is_write_end write_end = true
is_write_end _ = false

-- Whether one of the first descriptors is open on the write end.
abbrev pub has_writer : Table → ℕ → Bool
has_writer t zero = false
has_writer t (suc n) = is_write_end (t n) || has_writer t n

-- `STDERR_FILENO`
abbrev pub stderr_fileno : ℕ
stderr_fileno = 2

-- What the system's calls give in `startStderrCapture`: the two ends of a pipe, or an error, and a
-- copy of the descriptor of stderr, or an error.
pub record System : Type 0 where
  pub pipe : Option (ℕ × ℕ)
  pub dup : Option ℕ

-- `m_stderrSavedFd`, `m_pipeRead` and `m_pipeWrite`, with -1 as `none`, and whether `m_stderrThread` is
-- joinable.
pub record Capture : Type 0 where
  pub stderr_saved_fd : Option ℕ
  pub pipe_read : Option ℕ
  pub pipe_write : Option ℕ
  pub stderr_thread : Bool

-- How a call ends: it returns, it waits forever, or the program is terminated.
pub data Ending (A : Type 0) : Type 0 where
  returns : A → Ending A
  waits : Ending A
  terminates : Ending A

-- The constructor's values.
abbrev pub no_capture : Capture
no_capture = record {
  stderr_saved_fd = none;
  pipe_read = none;
  pipe_write = none;
  stderr_thread = false;
}

-- `dup`, which copies what a descriptor is open on to the descriptor that the system gives.
abbrev pub duplicate : Table → Option ℕ → Table
duplicate t none = t
duplicate t (some fd) = assign t fd (t stderr_fileno)

-- `startStderrCapture`. A thread that is assigned to while it is joinable terminates the program.
pub start_stderr_capture : System → Table → Capture → Ending (Table × Capture)
start_stderr_capture system t c = elim system.pipe [
  | none ↦ returns (t, c)
  | some (reader, writer) ↦
      let piped = assign (assign t reader read_end) writer write_end in
      let saved = duplicate piped system.dup in
      let redirected = assign saved stderr_fileno (saved writer) in
      if c.stderr_thread
      then terminates
      else returns (
        redirected,
        record {
          stderr_saved_fd = system.dup;
          pipe_read = some reader;
          pipe_write = some writer;
          stderr_thread = true;
        },
      )
]

abbrev pub close_fd : Table → Option ℕ → Table
close_fd t none = t
close_fd t (some fd) = assign t fd unused

-- The first part of `stopStderrCapture`.
abbrev pub restore_stderr : Table → Option ℕ → Table
restore_stderr t none = t
restore_stderr t (some fd) = assign (assign t stderr_fileno (t fd)) fd unused

-- `stopStderrCapture`, with so many descriptors at most.
pub stop_stderr_capture : ℕ → Table → Capture → Ending (Table × Capture)
stop_stderr_capture limit t c =
    let drained = close_fd (restore_stderr t c.stderr_saved_fd) c.pipe_write in
    if c.stderr_thread
    then if has_writer drained limit
      then waits
      else returns (close_fd drained c.pipe_read, no_capture)
    else returns (close_fd drained c.pipe_read, no_capture)
