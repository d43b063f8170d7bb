-- ===== src/Tx/Device.antt =====
-- `open`, `close`, `startTx` and `stopTx` of src/tx/SoapyTx.cpp. SoapySDR is not modelled: a call of
-- `open` takes how the library's calls in it end, and the calls that make and release devices and
-- streams are counted.
pub mod Balance
pub mod Tuning
pub mod Thread
pub mod Plugins
mod Tests
use site_sim.Base.{
  ℕ, zero, suc, ◌+◌, List, [], ◌∷◌, Option, none, some, Bool, true, false, if◌then◌else◌,
}

-- How the calls of SoapySDR in `open` end: `make` throws or gives null; a setting, or `setupStream`,
-- throws; `setupStream` gives null; or all goes well. A setting of the amplifier may throw in any case.
pub data Outcome : Type 0 where
  make_throws : Outcome
  make_null : Outcome
  later_throws : Outcome
  stream_null : Outcome
  opened : Outcome

-- `m_lastError`: the two texts of the code, or that of an exception.
pub data Error : Type 0 where
  make_failed : Error
  setup_stream_failed : Error
  exception : Error

-- `m_device` and `m_stream`, by whether they are set, `m_running` and `m_lastError`, and the numbers
-- of devices made and unmade and of streams set up and closed.
pub record Radio : Type 0 where
  pub device : Bool
  pub stream : Bool
  pub running : Bool
  pub last_error : Option Error
  pub made : ℕ
  pub unmade : ℕ
  pub set_up : ℕ
  pub closed : ℕ

-- `startTx` and `stopTx`, as far as the members go.
unfoldable pub start_tx : Radio → Radio
start_tx r = record r { running = true }

unfoldable pub stop_tx : Radio → Radio
stop_tx r = record r { running = false }

abbrev pub close_stream : Radio → Radio
close_stream r = if r.stream then record r { stream = false; closed = r.closed + 1 } else r

abbrev pub unmake_device : Radio → Radio
unmake_device r = record r { device = false; unmade = r.unmade + 1 }

-- `close`
unfoldable pub close : Radio → Radio
close r =
    let stopped = stop_tx r in if r.device then unmake_device (close_stream stopped) else stopped

-- The part of `open` after the first line.
unfoldable pub try_open : Outcome → Radio → Bool × Radio
try_open make_throws r = (false, record r { device = false; last_error = some exception })
try_open make_null r = (false, record r { device = false; last_error = some make_failed })
try_open later_throws r =
    (false, record r { device = false; last_error = some exception; made = r.made + 1 })
try_open stream_null r = (
  false,
  record r {
    device = false;
    stream = false;
    last_error = some setup_stream_failed;
    made = r.made + 1;
    unmade = r.unmade + 1;
  },
)
try_open opened r = (
  true,
  record r {
    device = true;
    stream = true;
    last_error = none;
    made = r.made + 1;
    set_up = r.set_up + 1;
  },
)

-- `open`
unfoldable pub open_device : Outcome → Radio → Bool × Radio
open_device outcome r = try_open outcome (if r.device then close r else r)
