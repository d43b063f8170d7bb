-- ===== src/Rx/Capture/Restore.antt =====
-- What the capture of src/rx/RxPipeline.cpp leaves of the table of descriptors.
use site_sim.Base.{
  ℕ, zero, suc, ◌≡◌, ◌≢◌, refl, sym, ap, ◌∙◌, fun_ext, inl, inr, Option, none, some, Bool, true,
  false, Bool-cases, ◌==◌, ==-true→eq, ==-false→ne, ◌||◌, ◌<◌, arith,
}
use site_sim.Rx.Capture.{
  File, unused, terminal, write_end, Table, assign, is_write_end, has_writer, stderr_fileno,
  Capture, returns, waits, no_capture, start_stderr_capture, stop_stderr_capture, close_fd,
  restore_stderr,
}

-- The system gives three descriptors that are not in use, and no pipe is open.
pub record IsFresh (t : Table) (reader writer copy : ℕ) : Type 0 where
  pub no_writer : (fd : ℕ) → is_write_end (t fd) ≡ false
  pub reader_unused : t reader ≡ unused
  pub writer_unused : t writer ≡ unused
  pub copy_unused : t copy ≡ unused
  pub stderr_open : t stderr_fileno ≡ terminal
  pub reader-writer : reader ≢ writer
  pub reader-copy : reader ≢ copy
  pub writer-copy : writer ≢ copy

has_writer_none :
    (t : Table) (n : ℕ) → ((fd : ℕ) → is_write_end (t fd) ≡ false) → has_writer t n ≡ false
has_writer_none t zero h = refl
has_writer_none t (suc n) h = rw (h n) (has_writer_none t n h)

module _ (t : Table) (reader writer copy : ℕ) (f : IsFresh t reader writer copy) where
  abbrev pub captured : Table
  captured =
      let piped = assign (assign t reader File.read_end) writer write_end in
      let saved = assign piped copy (piped stderr_fileno) in
      assign saved stderr_fileno (saved writer)

  abbrev pub capture : Capture
  capture = record {
    stderr_saved_fd = some copy;
    pipe_read = some reader;
    pipe_write = some writer;
    stderr_thread = true;
  }

  apart : (fd : ℕ) → t fd ≡ unused → fd ≢ stderr_fileno
  apart fd e h = unused_ne_terminal (sym e ∙ ap t h ∙ f.stderr_open)
    where
      unused_ne_terminal : ◌≢◌ {A = File} unused terminal
      unused_ne_terminal h = cc

  -- The table at the join: only the read end is left.
  drained_lem :
      (fd : ℕ)
      → close_fd (restore_stderr captured (some copy)) (some writer) fd
        ≡ assign t reader File.read_end fd
  drained_lem fd =
      let reader_apart = apart reader f.reader_unused in
      let writer_apart = apart writer f.writer_unused in
      let copy_apart = apart copy f.copy_unused in
      let writer_free = f.writer_unused in
      let copy_free = f.copy_unused in grind (arith, f.reader-writer, f.reader-copy, f.writer-copy)

  drained_quiet : (limit : ℕ) → has_writer (assign t reader File.read_end) limit ≡ false
  drained_quiet limit = has_writer_none (assign t reader File.read_end) limit quiet
    where
      quiet : (fd : ℕ) → is_write_end (assign t reader File.read_end fd) ≡ false
      quiet fd = elim (Bool-cases (fd == reader)) [
        | inl e ↦ rw e refl
        | inr e ↦ rw e (f.no_writer fd)
      ]

  captured_stderr : captured stderr_fileno ≡ write_end
  captured_stderr = let copy_apart = f.writer-copy in ground arith

  -- With three descriptors that are free, the capture is taken down without waiting, and leaves the
  -- table of descriptors as it was.
  pub stop-start_capture :
      (limit : ℕ)
      → (start_stderr_capture
            (record { pipe = some (reader, writer); dup = some copy })
            t
            no_capture
          ≡ returns (captured, capture))
        × (captured stderr_fileno ≡ write_end)
        × (stop_stderr_capture limit captured capture ≡ returns (t, no_capture))
  unfolding start_stderr_capture stop_stderr_capture
  stop-start_capture limit =
      let drained = fun_ext drained_lem in
      let closed : assign (assign t reader File.read_end) reader unused ≡ t = fun_ext λ fd.
        elim (Bool-cases (fd == reader)) [
          | inl e ↦ rw e (sym (ap t (==-true→eq fd reader e) ∙ f.reader_unused))
          | inr e ↦ rw e refl
        ] in
      (refl, captured_stderr, rw (drained, drained_quiet limit, closed) refl)

has_writer_at : (t : Table) (n fd : ℕ) → fd < n → is_write_end (t fd) ≡ true → has_writer t n ≡ true
has_writer_at t zero fd h e = absurd (omega arith)
has_writer_at t (suc n) fd h e = elim (Bool-cases (fd == n)) [
  | inl same ↦
      let here : is_write_end (t n) ≡ true =
        ap (λ k. is_write_end (t k)) (sym (==-true→eq fd n same)) ∙ e in
      rw here refl
  | inr other ↦
      or_true (is_write_end (t n)) (has_writer t n)
        (has_writer_at t n fd (omega (arith, ==-false→ne fd n other)) e)
]
  where
    or_true : (a b : Bool) → b ≡ true → (a || b) ≡ true
    or_true true b h = refl
    or_true false b h = h

-- If the system gives a pipe but no copy of the descriptor of stderr, the capture cannot be taken
-- down: stderr stays on the pipe, and the reader is waited for forever.
pub stop_capture_waits :
    (t : Table) (reader writer limit : ℕ)
    → stderr_fileno ≢ writer
    → stderr_fileno < limit
    → (captured' : Table) × (c : Capture) × (start_stderr_capture
          (record { pipe = some (reader, writer); dup = none })
          t
          no_capture
        ≡ returns (captured', c))
      × (stop_stderr_capture limit captured' c ≡ waits)
unfolding start_stderr_capture stop_stderr_capture
stop_capture_waits t reader writer limit apart open_max =
    let piped = assign (assign t reader File.read_end) writer write_end in
    let captured' = assign piped stderr_fileno (piped writer) in
    let left = assign captured' writer unused in
    let held : is_write_end (left stderr_fileno) ≡ true = ground arith in
    (
      captured',
      record {
        stderr_saved_fd = none;
        pipe_read = some reader;
        pipe_write = some writer;
        stderr_thread = true;
      },
      refl,
      rw (has_writer_at left limit stderr_fileno open_max held) refl,
    )

pub start_without_pipe :
    (t : Table) (dup : Option ℕ)
    → start_stderr_capture (record { pipe = none; dup = dup }) t no_capture
      ≡ returns (t, no_capture)
unfolding start_stderr_capture
start_without_pipe t dup = refl

pub stop_nothing :
    (t : Table) (limit : ℕ) → stop_stderr_capture limit t no_capture ≡ returns (t, no_capture)
unfolding stop_stderr_capture
stop_nothing t limit = refl
