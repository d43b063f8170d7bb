-- ===== src/Uplink/Bounds.antt =====
-- The widths of what the arguments of src/uplink_test_main.cpp set.
use Prim.Native.String.{String}
use text.Mathlib.Text.{◌==◌}
use site_sim.Base.{
  ℕ, ◌<◌, List, [], ◌∷◌, Option, none, some, Bool, true, false, ◌||◌, if◌then◌else◌, arith,
}
use site_sim.Bits.{bit_and_mask}
use site_sim.Tx.Control.{Doubles, SiteConfig}
use site_sim.Uplink.{
  Conversions, Parsed, set_frequency, set_nac, set_sysid, listening, converted, parse_loop,
  parse_args,
}

module _ {Double : Type 0} (doubles : Doubles Double) (std : Conversions Double) where
  -- The bounds of the 12-bit fields.
  record IsMasked (p : Parsed Double) : Type 0 where
    nac : p.cfg.nac < 4096
    sysid : p.cfg.sysid < 4096

  masked : (p : Parsed Double) → p.cfg.nac < 4096 → p.cfg.sysid < 4096 → IsMasked p
  masked p n s = record { nac = n; sysid = s }

  if-IsMasked :
      (b : Bool) (p q : Parsed Double) → IsMasked p → IsMasked q → IsMasked (if b then p else q)
  if-IsMasked true p q hp hq = hp
  if-IsMasked false p q hp hq = hq

  converted-IsMasked :
      {A : Type 0} (o : Option A) (p : Parsed Double) (k : A → Parsed Double)
      → IsMasked p
      → ((a : A) → IsMasked (k a))
      → IsMasked (converted o p k)
  converted-IsMasked none p k hp hk = hp
  converted-IsMasked (some a) p k hp hk = hk a

  parse_loop-IsMasked :
      (cfg : SiteConfig Double) (args : List String)
      → cfg.nac < 4096
      → cfg.sysid < 4096
      → IsMasked (parse_loop doubles std cfg args)
  unfolding parse_loop
  parse_loop-IsMasked cfg [] n s = masked _ n s
  parse_loop-IsMasked cfg (arg ∷ []) n s =
      if-IsMasked ((arg == "--help") || (arg == "-h")) _ _ (masked _ n s) (
        if-IsMasked ((arg == "--rx-freq") || (arg == "--nac") || (arg == "--sysid")) _ _
          (masked _ n s) (masked _ n s))
  parse_loop-IsMasked cfg (arg ∷ value ∷ args) n s =
      let frequency =
        λ (mhz : Double). parse_loop-IsMasked (set_frequency doubles std mhz cfg) args n s in
      let network = λ (x : ℕ).
        parse_loop-IsMasked (set_nac doubles std x cfg) args (omega (arith, bit_and_mask 12 x)) s in
      let system = λ (x : ℕ).
        parse_loop-IsMasked (set_sysid doubles std x cfg) args n
          (omega (arith, bit_and_mask 12 x)) in
      if-IsMasked ((arg == "--help") || (arg == "-h")) _ _ (masked _ n s) (
        if-IsMasked (arg == "--rx-freq") _ _
          (converted-IsMasked (std.stod value) _ _ (masked _ n s) frequency)
          (if-IsMasked (arg == "--nac") _ _
            (converted-IsMasked (std.stoul_hex value) _ _ (masked _ n s) network)
            (if-IsMasked (arg == "--sysid") _ _
              (converted-IsMasked (std.stoul_hex value) _ _ (masked _ n s) system) (masked _ n s))))

  -- Whatever the arguments, the NAC and the SYSID that the parser leaves have at most 12 bits.
  pub parse_args-IsMasked :
      (cfg : SiteConfig Double) (args : List String)
      → ((parse_args doubles std cfg args).cfg.nac < 4096)
        × ((parse_args doubles std cfg args).cfg.sysid < 4096)
  unfolding parse_args
  parse_args-IsMasked cfg args =
      let bounds =
        parse_loop-IsMasked (listening doubles std cfg) args (omega arith) (omega arith) in
      (bounds.nac, bounds.sysid)
