-- ===== src/Tx/Device/Thread/Tests.antt =====
-- Instances for `txThread` of src/tx/SoapyTx.cpp.
use site_sim.Base.{◌≡◌, refl, List, [], ◌∷◌, none, false, not}
use site_sim.Tx.Ring.{new_ring}
use site_sim.Tx.Device.{opened, try_open}
use site_sim.Tx.Device.Balance.{Call, calls_open, calls_close, calls_start, run_calls}
use site_sim.Tx.Device.Thread.{
  Transmitter, absent, finished, is_absent, closes, free, joins, thread_turn, start_thread, halt,
  begin_call,
}
use site_sim.Tx.Device.Thread.Life.{
  Reach, here, turns, begins, IsOff, is_streaming, Reach-run_calls, Reach-joins,
}

abbrev new : Transmitter
new = record {
  radio = record {
    device = false;
    stream = false;
    running = false;
    last_error = none;
    made = 0;
    unmade = 0;
    set_up = 0;
    closed = 0;
  };
  ring = new_ring;
  thread = absent;
  active = false;
  given = [];
  broken = false;
}

new-IsOff : IsOff new
new-IsOff = record { unbroken = refl; not_running = refl; no_thread = refl; not_active = refl }

-- A device is opened and the transmitter started, and the thread has two turns.
abbrev on_air : Transmitter
on_air = thread_turn (thread_turn (begin_call calls_start (begin_call (calls_open opened) new).0).0)

abbrev calls : List Call
calls = calls_open opened ∷ calls_start ∷ []

on_air-reached : Reach new calls free on_air
unfolding begin_call start_thread try_open
on_air-reached = turns (turns (begins calls_start (begins (calls_open opened) here)))

-- Then the device is closed: the owner waits for the thread.
abbrev closing : Transmitter
closing = (begin_call calls_close on_air).0

closing-reached :
    Reach new (calls_open opened ∷ calls_start ∷ calls_close ∷ []) (joins closes) closing
unfolding begin_call start_thread try_open thread_turn halt
closing-reached = begins calls_close on_air-reached

Reach-run_calls_example :
    (on_air.radio ≡ run_calls calls new.radio)
    × (on_air.radio.running ≡ not (is_absent on_air.thread))
    × (on_air.active ≡ is_streaming on_air.thread)
    × (on_air.broken ≡ false)
Reach-run_calls_example = Reach-run_calls new calls on_air new-IsOff on_air-reached

Reach-joins_example :
    ((thread_turn (thread_turn closing)).thread ≡ finished)
    × (e : Transmitter) × Reach new (calls_open opened ∷ calls_start ∷ calls_close ∷ []) free e
    × (e.radio ≡ run_calls (calls_open opened ∷ calls_start ∷ calls_close ∷ []) new.radio)
    × IsOff e
Reach-joins_example =
    Reach-joins new (calls_open opened ∷ calls_start ∷ calls_close ∷ []) closes closing new-IsOff
      closing-reached
