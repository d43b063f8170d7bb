-- ===== src/Uplink.antt =====
-- src/uplink_test_main.cpp, the receiver without a transmitter: its arguments. The
-- conversions of the standard library are parameters; `none` is an exception. What is printed is a
-- list of messages.
pub mod Arguments
pub mod Bounds
pub mod Main
mod Tests
use Prim.Native.String.{String}
use text.Mathlib.Text.{◌==◌}
use site_sim.Base.{
  ℕ, bit_and, List, [], ◌∷◌, Option, none, some, Bool, true, false, ◌||◌, if◌then◌else◌,
}
use site_sim.Tx.Control.{Doubles, SiteConfig}

-- `std::stod`, and `std::stoul` with base 16.
pub record Conversions (Double : Type 0) : Type 0 where
  pub stod : String → Option Double
  pub stoul_hex : String → Option ℕ

-- `ParseResult`, and an exception.
pub data ParseResult : Type 0 where
  parse_ok : ParseResult
  parse_help : ParseResult
  parse_error : ParseResult
  raised : ParseResult

pub data Message : Type 0 where
  usage : Message
  missing_value : String → Message
  unknown_option : String → Message

-- How the parser ends: its result, what it prints, and the configuration.
pub record Parsed (Double : Type 0) : Type 0 where
  pub result : ParseResult
  pub messages : List Message
  pub cfg : SiteConfig Double

-- A conversion, then the rest, or what an exception leaves.
abbrev pub converted :
    {A Double : Type 0} → Option A → Parsed Double → (A → Parsed Double) → Parsed Double
converted none failed rest = failed
converted (some a) failed rest = rest a

module _ {Double : Type 0} (doubles : Doubles Double) (std : Conversions Double) where
  abbrev pub set_frequency : Double → SiteConfig Double → SiteConfig Double
  set_frequency mhz cfg = record cfg {
    cc_freq_hz = doubles.mul mhz (doubles.literal 1000000);
    tx_offset_mhz = doubles.literal 0;
  }

  abbrev pub set_nac : ℕ → SiteConfig Double → SiteConfig Double
  set_nac n cfg = record cfg { nac = bit_and n 0xFFF }

  abbrev pub set_sysid : ℕ → SiteConfig Double → SiteConfig Double
  set_sysid n cfg = record cfg { sysid = bit_and n 0xFFF }

  -- The loop of `parseArgs`, over the arguments that are left.
  pub parse_loop : SiteConfig Double → List String → Parsed Double
  parse_loop cfg [] = record { result = parse_ok; messages = []; cfg = cfg }
  parse_loop cfg (arg ∷ []) =
      if (arg == "--help") || (arg == "-h")
      then record { result = parse_help; messages = usage ∷ []; cfg = cfg }
      else if (arg == "--rx-freq") || (arg == "--nac") || (arg == "--sysid")
      then record { result = parse_error; messages = missing_value arg ∷ []; cfg = cfg }
      else record { result = parse_error; messages = unknown_option arg ∷ usage ∷ []; cfg = cfg }
  parse_loop cfg (arg ∷ value ∷ args) =
      let failed : Parsed Double = record { result = raised; messages = []; cfg = cfg } in
      if (arg == "--help") || (arg == "-h")
      then record { result = parse_help; messages = usage ∷ []; cfg = cfg }
      else if arg == "--rx-freq"
      then converted (std.stod value) failed (λ mhz. parse_loop (set_frequency mhz cfg) args)
      else if arg == "--nac"
      then converted (std.stoul_hex value) failed (λ n. parse_loop (set_nac n cfg) args)
      else if arg == "--sysid"
      then converted (std.stoul_hex value) failed (λ n. parse_loop (set_sysid n cfg) args)
      else record { result = parse_error; messages = unknown_option arg ∷ usage ∷ []; cfg = cfg }

  abbrev pub listening : SiteConfig Double → SiteConfig Double
  listening cfg = record cfg {
    cc_freq_hz = doubles.literal 145650000;
    tx_offset_mhz = doubles.literal 0;
    nac = 0x293;
    sysid = 0x001;
  }

  -- `parseArgs`, over the arguments after the program's name.
  pub parse_args : SiteConfig Double → List String → Parsed Double
  parse_args cfg args = parse_loop (listening cfg) args
