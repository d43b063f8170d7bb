-- ===== src/Rx/Pipeline/Stuck.antt =====
-- `RxPipeline` of src/rx/RxPipeline.cpp when the capture has a pipe and no copy of stderr.
use site_sim.Base.{ℕ, ◌≡◌, ◌≢◌, ◌<◌, ap, ap₂, ◌∙◌, none, some, true, false}
use site_sim.Tx.Control.{Doubles, rx_freq_hz}
use site_sim.Rx.Capture.{
  Table, System, Capture, Ending, returns, waits, stderr_fileno, start_stderr_capture,
}
use site_sim.Rx.Capture.Restore.{stop_capture_waits}
use site_sim.Rx.Pipeline.{
  Pipeline, Engine, engine_runs, receive_opts, launch, release, destroy_members, start_rx, stop_rx,
  destroy_rx,
}
use site_sim.Rx.Pipeline.Life.{IsIdle, start_if}

module _ {Double : Type 0} (doubles : Doubles Double) (t : Table) (limit : ℕ) where
  -- A receiver that holds nothing, where the system gives a pipe beside stderr but no copy of stderr: it
  -- starts, and neither its `stop` nor its destructor ever returns.
  pub start_rx-waits :
      (p : Pipeline Double) (reader writer : ℕ)
      → IsIdle doubles t p
      → stderr_fileno ≢ writer
      → stderr_fileno < limit
      → let system : System = record { pipe = some (reader, writer); dup = none } in
        (q : Pipeline Double) × (start_rx doubles system p ≡ returns (true, q))
        × (stop_rx limit q ≡ waits)
        × (destroy_rx limit q ≡ waits)
  unfolding start_rx stop_rx destroy_rx
  start_rx-waits p reader writer idle apart low =
      let system : System = record { pipe = some (reader, writer); dup = none } in
      let (table, capture, e, stuck) = stop_capture_waits t reader writer limit apart low in
      let q : Pipeline Double = record p {
        opts = some (receive_opts (doubles.to_uint32 (rx_freq_hz doubles p.cfg)));
        state = true;
        thread = engine_runs;
        running = true;
        exitflag = false;
        hooks = true;
        capture = capture;
        table = table;
      } in
      let begun = ap₂ (start_stderr_capture system) idle.same_table idle.no_capture_now ∙ e in
      let rest = λ (th : Engine) (s : Ending (Table × Capture)). launch doubles p th s in
      let stopped = ap (release q) stuck in
      (
        q,
        ap (start_if doubles t p system) idle.not_running ∙ ap₂ rest idle.no_thread begun,
        stopped,
        ap destroy_members stopped,
      )
