-- ===== src/Uplink/Tests.antt =====
-- Instances for src/uplink_test_main.cpp.
use text.Mathlib.Text.{◌==◌}
use site_sim.Base.{ℕ, ◌≡◌, refl, List, [], ◌∷◌, none, some, if◌then◌else◌}
use site_sim.Tx.Control.{SiteConfig}
use site_sim.Tx.Control.Samples.{whole, site}
use site_sim.Uplink.{
  Conversions, parse_ok, parse_help, parse_error, raised, usage, missing_value, unknown_option,
  listening, set_frequency, set_nac, set_sysid, parse_loop, parse_args,
}
use site_sim.Uplink.Arguments.{Setting, frequency, network, system, spelled, parse_args-spelled}

-- Conversions that know three texts.
abbrev conversions : Conversions ℕ
conversions = record {
  stod = λ s. if s == "146.52" then some 146 else none;
  stoul_hex = λ s. if s == "1F3" then some 0x1F3 else if s == "F00D" then some 0xF00D else none;
}

abbrev settings : List Setting
settings = network "1F3" ∷ frequency "146.52" ∷ system "F00D" ∷ []

abbrev parsed : SiteConfig ℕ
parsed = set_sysid whole conversions 0xF00D (
    set_frequency whole conversions 146
      (set_nac whole conversions 0x1F3 (listening whole conversions site)))

parse_args-spelled_example :
    (parse_args whole conversions site
        ("--nac" ∷ "1F3" ∷ "--rx-freq" ∷ "146.52" ∷ "--sysid" ∷ "F00D" ∷ [])
      ≡ record { result = parse_ok; messages = []; cfg = parsed })
    × (parse_args whole conversions site (spelled settings ("--help" ∷ "x" ∷ []))
        ≡ record { result = parse_help; messages = usage ∷ []; cfg = parsed })
    × (parse_args whole conversions site (spelled settings ("-h" ∷ "x" ∷ []))
        ≡ record { result = parse_help; messages = usage ∷ []; cfg = parsed })
    × (parse_args whole conversions site (spelled settings ("--rx-freq" ∷ []))
        ≡ record { result = parse_error; messages = missing_value "--rx-freq" ∷ []; cfg = parsed })
    × (parse_args whole conversions site (spelled settings ("--nac" ∷ []))
        ≡ record { result = parse_error; messages = missing_value "--nac" ∷ []; cfg = parsed })
    × (parse_args whole conversions site (spelled settings ("--sysid" ∷ []))
        ≡ record { result = parse_error; messages = missing_value "--sysid" ∷ []; cfg = parsed })
    × (parse_args whole conversions site (spelled settings ("--gain" ∷ "x" ∷ [])) ≡ record {
      result = parse_error;
      messages = unknown_option "--gain" ∷ usage ∷ [];
      cfg = parsed;
    })
parse_args-spelled_example =
    parse_args-spelled whole conversions settings site parsed "--gain" ("x" ∷ []) refl refl

-- A value that does not convert.
raised_test : (parse_args whole conversions site ("--nac" ∷ "xyz" ∷ [])).result ≡ raised
unfolding parse_args parse_loop
raised_test = refl
