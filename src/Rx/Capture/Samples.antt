-- ===== src/Rx/Capture/Samples.antt =====
-- Data that tests share: a process whose standard descriptors are on a terminal.
use site_sim.Base.{ℕ, zero, suc, ◌≡◌, refl, some, false, arith}
use site_sim.Rx.Capture.{unused, terminal, is_write_end, Table, System}
use site_sim.Rx.Capture.Restore.{IsFresh}

-- The three standard descriptors on a terminal.
abbrev pub standard : Table
standard zero = terminal
standard (suc zero) = terminal
standard (suc (suc zero)) = terminal
standard (suc (suc (suc fd))) = unused

standard_no_writer : (fd : ℕ) → is_write_end (standard fd) ≡ false
standard_no_writer zero = refl
standard_no_writer (suc zero) = refl
standard_no_writer (suc (suc zero)) = refl
standard_no_writer (suc (suc (suc fd))) = refl

pub standard-IsFresh : IsFresh standard 3 4 5
standard-IsFresh = record {
  no_writer = standard_no_writer;
  reader_unused = refl;
  writer_unused = refl;
  copy_unused = refl;
  stderr_open = refl;
  reader-writer = omega arith;
  reader-copy = omega arith;
  writer-copy = omega arith;
}

-- A system that makes a pipe and a copy of stderr.
abbrev pub piped : System
piped = record { pipe = some (3, 4); dup = some 5 }
