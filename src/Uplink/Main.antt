-- ===== src/Uplink/Main.antt =====
-- `main` of src/uplink_test_main.cpp: the receiver runs until a signal comes or its engine has ended, and
-- is then stopped and destroyed. The value is the exit code.
pub mod Exit
mod Tests
use Prim.Native.String.{String}
use site_sim.Base.{ℕ, List, Bool, true, false}
use site_sim.Tx.Control.{Doubles, SiteConfig}
use site_sim.Rx.Capture.{System, Ending, returns, waits, terminates}
use site_sim.Rx.Pipeline.{Pipeline, configure_rx, start_rx, stop_rx, engine_returns, destroy_rx}
use site_sim.Uplink.{
  Conversions, ParseResult, parse_ok, parse_help, parse_error, raised, Parsed, parse_args,
}

-- Why the loop ends: `g_stop`, or the engine that is not running any more.
pub data Reason : Type 0 where
  signalled : Reason
  engine_ended : Reason

-- The end of the scope of the receiver.
abbrev pub leaves : ℕ → Ending (Unit {0}) → Ending ℕ
leaves code waits = waits
leaves code terminates = terminates
leaves code (returns u) = returns code

-- After `parseArgs`, with how the rest of `main` ends.
abbrev pub after_parse : ParseResult → Ending ℕ → Ending ℕ
after_parse parse_ok rest = rest
after_parse parse_help rest = returns 0
after_parse parse_error rest = returns 1
after_parse raised rest = returns 1

module _ {Double : Type 0} where
  -- The receiver when the loop ends.
  abbrev pub waited : Reason → Pipeline Double → Pipeline Double
  waited signalled p = p
  waited engine_ended p = engine_returns p

  -- After `stop`.
  abbrev pub after_stop : ℕ → Ending (Pipeline Double) → Ending ℕ
  after_stop limit waits = waits
  after_stop limit terminates = terminates
  after_stop limit (returns p) = leaves 0 (destroy_rx limit p)

  -- After `start`.
  abbrev pub after_start : ℕ → Reason → Ending (Bool × Pipeline Double) → Ending ℕ
  after_start limit reason waits = waits
  after_start limit reason terminates = terminates
  after_start limit reason (returns (false, p)) = leaves 1 (destroy_rx limit p)
  after_start limit reason (returns (true, p)) = after_stop limit (stop_rx limit (waited reason p))

  -- `main`, with the members of a new receiver.
  pub main :
      Doubles Double
      → Conversions Double
      → System
      → ℕ
      → Reason
      → SiteConfig Double
      → List String
      → Pipeline Double
      → Ending ℕ
  main doubles std system limit reason initial args p =
      let parsed = parse_args doubles std initial args in
      after_parse parsed.result
        (after_start limit reason (start_rx doubles system (configure_rx parsed.cfg p)))
