-- ===== src/Rx/Capture/Tests.antt =====
-- Instances for the capture of stderr of src/rx/RxPipeline.cpp.
use site_sim.Base.{◌≡◌}
use site_sim.Rx.Capture.{
  write_end, stderr_fileno, returns, no_capture, start_stderr_capture, stop_stderr_capture,
}
use site_sim.Rx.Capture.Samples.{standard, standard-IsFresh, piped}
use site_sim.Rx.Capture.Restore.{captured, capture, stop-start_capture}

stop-start_capture_example :
    (start_stderr_capture piped standard no_capture
      ≡ returns (captured standard 3 4 5 standard-IsFresh, capture standard 3 4 5 standard-IsFresh))
    × (captured standard 3 4 5 standard-IsFresh stderr_fileno ≡ write_end)
    × (stop_stderr_capture 1024
          (captured standard 3 4 5 standard-IsFresh)
          (capture standard 3 4 5 standard-IsFresh)
        ≡ returns (standard, no_capture))
stop-start_capture_example = stop-start_capture standard 3 4 5 standard-IsFresh 1024
