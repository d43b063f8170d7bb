-- ===== src/Rx/Pipeline/Tests.antt =====
-- Instances for the life of src/rx/RxPipeline.cpp.
use site_sim.Base.{ℕ, ◌≡◌, ◌≢◌, refl, ap, some, none, true, false}
use site_sim.Tx.Control.Samples.{whole, site}
use site_sim.Tx.Control.{rx_freq_hz}
use site_sim.Rx.Capture.Restore.{stop-start_capture, captured, capture}
use site_sim.Rx.Capture.Samples.{standard, standard-IsFresh, piped}
use site_sim.Rx.Capture.{returns, terminates, no_capture}
use site_sim.Rx.Pipeline.{
  Pipeline, no_engine, engine_runs, receive_opts, launch, configure_rx, start_rx, stop_rx,
  engine_returns, destroy_rx,
}
use site_sim.Rx.Pipeline.Life.{IsIdle, configure-IsIdle}
use site_sim.Rx.Pipeline.Captured.{Gives, all_three}
use site_sim.Rx.Pipeline.Reach.{Reach, here, next, starts, engine_returns_ends}

abbrev idle : Pipeline ℕ
idle = record {
  cfg = site;
  opts = none;
  state = false;
  thread = no_engine;
  running = false;
  exitflag = false;
  hooks = false;
  capture = no_capture;
  table = standard;
}

idle-IsIdle : IsIdle whole standard idle
idle-IsIdle = record {
  not_running = refl;
  no_thread = refl;
  no_options = refl;
  no_state = refl;
  no_hooks = refl;
  no_capture_now = refl;
  same_table = refl;
}

abbrev started : Pipeline ℕ
started = record idle {
  opts = some (receive_opts (whole.to_uint32 (rx_freq_hz whole site)));
  state = true;
  thread = engine_runs;
  running = true;
  hooks = true;
  capture = capture standard 3 4 5 standard-IsFresh;
  table = captured standard 3 4 5 standard-IsFresh;
}

fresh : Gives standard piped
fresh = all_three 3 4 5 standard-IsFresh

idle-start : start_rx whole piped idle ≡ returns (true, started)
unfolding start_rx
idle-start =
    ap (launch whole idle no_engine) (stop-start_capture standard 3 4 5 standard-IsFresh 0).0

reached : Reach whole standard 1024 (configure_rx site idle) started
unfolding configure_rx
reached = next here (starts piped idle started (fresh) idle-start)

engine_returns_ends_example :
    (start_rx whole piped (engine_returns started) ≢ returns (true, started))
    × (stop_rx 1024 (engine_returns started) ≡ returns (engine_returns started))
    × (destroy_rx 1024 (engine_returns started) ≡ terminates)
engine_returns_ends_example =
    engine_returns_ends whole standard 1024 piped (true, started)
      (configure-IsIdle whole standard site idle idle-IsIdle) reached refl
