-- ===== src/Tx/Device/Thread.antt =====
-- `txThread` of src/tx/SoapyTx.cpp, turn by turn, beside the calls of its owner. `m_txThread.join()` is a
-- wait of the owner, and a call of `open` but for its `close` is one step. The calls of SoapySDR in the
-- thread do not throw here.
pub mod Stage
pub mod Halt
pub mod Calls
pub mod Life
mod Tests
use site_sim.Base.{ℕ, List, ◌++◌, Bool, true, false, not, ◌||◌, ◌&&◌, if◌then◌else◌}
use site_sim.Tx.Ring.{Ring, tx_chunk, tx_drain}
use site_sim.Tx.Device.{Radio, Outcome, stop_tx, close_stream, unmake_device, try_open}
use site_sim.Tx.Device.Balance.{Call, calls_open, calls_close, calls_start, calls_stop}

-- `m_txThread`: not there, or at the first test of its function, in one of the two loops, or at the end of
-- its function and not joined yet.
pub data Thread : Type 0 where
  absent : Thread
  spawned : Thread
  draining : Thread
  streaming : Thread
  finished : Thread

-- The members of `SoapyTx`, whether the stream is activated, the bytes that were given to the device, and
-- whether the program is broken: a thread was put in the place of another, or the thread used a device or
-- a stream that is not there, or a stream was closed while activated.
pub record Transmitter : Type 0 where
  pub radio : Radio
  pub ring : Ring
  pub thread : Thread
  pub active : Bool
  pub given : List ℕ
  pub broken : Bool

abbrev pub is_absent : Thread → Bool
is_absent absent = true
is_absent _ = false

-- What a call still does when the thread is joined.
pub data After : Type 0 where
  done : After
  closes : After
  opens : Outcome → After

pub data Owner : Type 0 where
  free : Owner
  joins : After → Owner

-- The first test of `txThread`, and `activateStream` behind it.
abbrev pub begin_thread : Transmitter → Transmitter
begin_thread t =
    if not t.radio.stream || not t.radio.device
    then record t { thread = draining }
    else record t { thread = streaming; active = true }

-- A turn of the loop without a device, with its condition.
abbrev pub drain_turn : Transmitter → Transmitter
drain_turn t =
    if t.radio.running then record t { ring = tx_drain t.ring } else record t { thread = finished }

abbrev pub misuses : Transmitter → Bool
misuses t = t.broken || not (t.radio.stream && t.radio.device)

-- `deactivateStream` behind the loop with a device.
abbrev pub deactivated : Transmitter → Transmitter
deactivated t = record t { thread = finished; active = false; broken = misuses t }

-- The body of the loop with a device.
abbrev pub streamed : Transmitter → Transmitter
streamed t =
    let (bytes, ring) = tx_chunk t.ring in
    record t { ring = ring; given = t.given ++ bytes; broken = misuses t }

-- A turn of the loop with a device, with its condition.
abbrev pub stream_turn : Transmitter → Transmitter
stream_turn t = if t.radio.running then streamed t else deactivated t

abbrev pub turn_of : Thread → Transmitter → Transmitter
turn_of absent t = t
turn_of spawned t = begin_thread t
turn_of draining t = drain_turn t
turn_of streaming t = stream_turn t
turn_of finished t = t

pub thread_turn : Transmitter → Transmitter
thread_turn t = turn_of t.thread t

-- `startTx`
pub start_thread : Transmitter → Transmitter
start_thread t = if t.radio.running then t else record t {
  radio = record t.radio { running = true };
  thread = spawned;
  broken = t.broken || not (is_absent t.thread);
}

-- `close` behind its `stopTx`: the radio.
abbrev pub released : Radio → Radio
released r = if r.device then unmake_device (close_stream r) else r

abbrev pub release_device : Transmitter → Transmitter
release_device t = record t {
  radio = released t.radio;
  broken = t.broken || (t.radio.device && t.radio.stream && t.active);
}

-- The rest of a call.
pub finish : After → Transmitter → Transmitter
finish done t = t
finish closes t = release_device t
finish (opens outcome) t = record (release_device t) {
  radio = (try_open outcome (released t.radio)).1;
}

-- `stopTx` as the first part of a call.
pub halt : After → Transmitter → Transmitter × Owner
halt after t =
    let stopped = record t { radio = stop_tx t.radio } in
    if t.radio.running then (stopped, joins after) else (finish after stopped, free)

pub begin_call : Call → Transmitter → Transmitter × Owner
begin_call calls_start t = (start_thread t, free)
begin_call calls_stop t = halt done t
begin_call calls_close t = halt closes t
begin_call (calls_open outcome) t =
    if t.radio.device
    then halt (opens outcome) t
    else (record t { radio = (try_open outcome t.radio).1 }, free)
