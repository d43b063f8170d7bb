-- ===== src/Uplink/Arguments.antt =====
-- What the arguments of src/uplink_test_main.cpp mean.
use Prim.Native.String.{String}
use text.Mathlib.Text.{◌==◌}
use site_sim.Base.{◌≡◌, refl, ap, ◌∙◌, List, [], ◌∷◌, Option, none, some, Bool, true, false, ◌||◌}
use site_sim.Tx.Control.{Doubles, SiteConfig}
use site_sim.Uplink.{
  Conversions, parse_ok, parse_help, parse_error, usage, missing_value, unknown_option, Parsed,
  set_frequency, set_nac, set_sysid, listening, converted, parse_loop, parse_args,
}

-- An option with its value.
pub data Setting : Type 0 where
  frequency : String → Setting
  network : String → Setting
  system : String → Setting

abbrev pub spelled : List Setting → List String → List String
spelled [] tail = tail
spelled (frequency v ∷ settings) tail = "--rx-freq" ∷ v ∷ spelled settings tail
spelled (network v ∷ settings) tail = "--nac" ∷ v ∷ spelled settings tail
spelled (system v ∷ settings) tail = "--sysid" ∷ v ∷ spelled settings tail

abbrev pub and_then : {A B : Type 0} → Option A → (A → Option B) → Option B
and_then none f = none
and_then (some a) f = f a

converted-and_then :
    {A Double : Type 0} (o : Option A) (failed : Parsed Double) (k : A → Parsed Double)
    (f : A → Option (SiteConfig Double)) (cfg' : SiteConfig Double) (r : Parsed Double)
    → ((a : A) → f a ≡ some cfg' → k a ≡ r)
    → and_then o f ≡ some cfg'
    → converted o failed k ≡ r
converted-and_then none failed k f cfg' r step h = cc
converted-and_then (some a) failed k f cfg' r step h = step a h

some-injective : {A : Type 0} (a b : A) → some a ≡ some b → a ≡ b
some-injective a b h = cc

-- The arguments that the parser knows.
abbrev pub is_option : String → Bool
is_option arg =
    (arg == "--help")
    || (arg == "-h")
    || (arg == "--rx-freq")
    || (arg == "--nac")
    || (arg == "--sysid")

or-false : (a b : Bool) → (a || b) ≡ false → (a ≡ false) × (b ≡ false)
or-false true b h = cc
or-false false b h = (refl, h)

other_option :
    (arg : String)
    → is_option arg ≡ false
    → ((arg == "--help") ≡ false)
      × ((arg == "-h") ≡ false)
      × ((arg == "--rx-freq") ≡ false)
      × ((arg == "--nac") ≡ false)
      × ((arg == "--sysid") ≡ false)
other_option arg h =
    let (abcd, e) = or-false _ _ h in
    let (abc, d) = or-false _ _ abcd in
    let (ab, c) = or-false _ _ abc in let (a, b) = or-false _ _ ab in (a, b, c, d, e)

module _ {Double : Type 0} (doubles : Doubles Double) (std : Conversions Double) where
  -- The configuration after the settings, one after the other; `none` if a value does not convert.
  abbrev pub applied : List Setting → SiteConfig Double → Option (SiteConfig Double)
  applied [] cfg = some cfg
  applied (frequency v ∷ settings) cfg =
      and_then (std.stod v) (λ mhz. applied settings (set_frequency doubles std mhz cfg))
  applied (network v ∷ settings) cfg =
      and_then (std.stoul_hex v) (λ n. applied settings (set_nac doubles std n cfg))
  applied (system v ∷ settings) cfg =
      and_then (std.stoul_hex v) (λ n. applied settings (set_sysid doubles std n cfg))

  parse_loop-spelled :
      (settings : List Setting) (tail : List String) (cfg cfg' : SiteConfig Double)
      → applied settings cfg ≡ some cfg'
      → parse_loop doubles std cfg (spelled settings tail) ≡ parse_loop doubles std cfg' tail
  unfolding parse_loop
  parse_loop-spelled [] tail cfg cfg' h =
      ap (λ c. parse_loop doubles std c tail) (some-injective cfg cfg' h)
  parse_loop-spelled (frequency v ∷ settings) tail cfg cfg' h =
      converted-and_then (std.stod v) _ _
        (λ mhz. applied settings (set_frequency doubles std mhz cfg)) cfg' _
        (λ mhz e. parse_loop-spelled settings tail (set_frequency doubles std mhz cfg) cfg' e) h
  parse_loop-spelled (network v ∷ settings) tail cfg cfg' h =
      converted-and_then (std.stoul_hex v) _ _ (λ n. applied settings (set_nac doubles std n cfg))
        cfg' _ (λ n e. parse_loop-spelled settings tail (set_nac doubles std n cfg) cfg' e) h
  parse_loop-spelled (system v ∷ settings) tail cfg cfg' h =
      converted-and_then (std.stoul_hex v) _ _ (λ n. applied settings (set_sysid doubles std n cfg))
        cfg' _ (λ n e. parse_loop-spelled settings tail (set_sysid doubles std n cfg) cfg' e) h

  parse_loop_unknown :
      (arg : String) (rest : List String) (cfg : SiteConfig Double)
      → is_option arg ≡ false
      → parse_loop doubles std cfg (arg ∷ rest)
        ≡ record { result = parse_error; messages = unknown_option arg ∷ usage ∷ []; cfg = cfg }
  unfolding parse_loop
  parse_loop_unknown arg [] cfg h =
      let (a, b, c, d, e) = other_option arg h in rw (a, b, c, d, e) refl
  parse_loop_unknown arg (value ∷ rest) cfg h =
      let (a, b, c, d, e) = other_option arg h in rw (a, b, c, d, e) refl

  parse_loop_help :
      (rest : List String) (cfg : SiteConfig Double)
      → (parse_loop doubles std cfg ("--help" ∷ rest)
          ≡ record { result = parse_help; messages = usage ∷ []; cfg = cfg })
        × (parse_loop doubles std cfg ("-h" ∷ rest)
            ≡ record { result = parse_help; messages = usage ∷ []; cfg = cfg })
  unfolding parse_loop
  parse_loop_help [] cfg = (refl, refl)
  parse_loop_help (value ∷ rest) cfg = (refl, refl)

  -- Settings whose values convert change the configuration one after the other. What follows decides
  -- the rest: the end is success; `--help` and `-h` ask for help; an option without a value, and an
  -- argument that is no option, are errors that print what is wrong.
  pub parse_args-spelled :
      (settings : List Setting) (cfg cfg' : SiteConfig Double) (arg : String) (rest : List String)
      → applied settings (listening doubles std cfg) ≡ some cfg'
      → is_option arg ≡ false
      → (parse_args doubles std cfg (spelled settings [])
          ≡ record { result = parse_ok; messages = []; cfg = cfg' })
        × (parse_args doubles std cfg (spelled settings ("--help" ∷ rest))
            ≡ record { result = parse_help; messages = usage ∷ []; cfg = cfg' })
        × (parse_args doubles std cfg (spelled settings ("-h" ∷ rest))
            ≡ record { result = parse_help; messages = usage ∷ []; cfg = cfg' })
        × (parse_args doubles std cfg (spelled settings ("--rx-freq" ∷ [])) ≡ record {
          result = parse_error;
          messages = missing_value "--rx-freq" ∷ [];
          cfg = cfg';
        })
        × (parse_args doubles std cfg (spelled settings ("--nac" ∷ []))
            ≡ record { result = parse_error; messages = missing_value "--nac" ∷ []; cfg = cfg' })
        × (parse_args doubles std cfg (spelled settings ("--sysid" ∷ []))
            ≡ record { result = parse_error; messages = missing_value "--sysid" ∷ []; cfg = cfg' })
        × (parse_args doubles std cfg (spelled settings (arg ∷ rest)) ≡ record {
          result = parse_error;
          messages = unknown_option arg ∷ usage ∷ [];
          cfg = cfg';
        })
  unfolding parse_args parse_loop
  parse_args-spelled settings cfg cfg' arg rest h other =
      let after = λ (tail : List String).
        parse_loop-spelled settings tail (listening doubles std cfg) cfg' h in
      let (help, short) = parse_loop_help rest cfg' in
      (
        after [],
        after ("--help" ∷ rest) ∙ help,
        after ("-h" ∷ rest) ∙ short,
        after ("--rx-freq" ∷ []),
        after ("--nac" ∷ []),
        after ("--sysid" ∷ []),
        after (arg ∷ rest) ∙ parse_loop_unknown arg rest cfg' other,
      )
