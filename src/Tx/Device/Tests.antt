-- ===== src/Tx/Device/Tests.antt =====
-- Instances for the radio of src/tx/SoapyTx.cpp.
use site_sim.Base.{◌+◌, refl, List, [], ◌∷◌, none, false}
use site_sim.Tx.Device.{Radio, later_throws, opened}
use site_sim.Tx.Device.Balance.{
  Call, calls_open, calls_close, calls_start, run_calls, thrown, Balanced, run_calls-Balanced,
}

abbrev fresh : Radio
fresh = record {
  device = false;
  stream = false;
  running = false;
  last_error = none;
  made = 0;
  unmade = 0;
  set_up = 0;
  closed = 0;
}

fresh-Balanced : Balanced 0 fresh
fresh-Balanced = (refl, refl, refl)

-- A device is opened and started, opened again in vain, and closed.
abbrev calls : List Call
calls = calls_open opened ∷ calls_start ∷ calls_open later_throws ∷ calls_close ∷ []

run_calls-Balanced_example : Balanced (0 + thrown calls) (run_calls calls fresh)
run_calls-Balanced_example = run_calls-Balanced calls 0 fresh fresh-Balanced
