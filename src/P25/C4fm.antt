-- ===== src/P25/C4fm.antt =====
-- The modulator of src/p25/C4FM.cpp and C4FM.hpp: `buildFilter`, `rrcSample` and `modulate`, over any
-- arithmetic on `float` and `double`. A sample is the byte of its `int8_t`.
pub mod Delay
pub mod Poly
pub mod Samples
mod Tests
use site_sim.Base.{
  ℕ, zero, suc, ◌+◌, ◌-◌, ◌*◌, ◌/◌, ◌%◌, bit_and, List, [], ◌∷◌, ◌++◌, map, Bool, get_or, set,
  length, replicate, ltb, if◌then◌else◌,
}
use site_sim.Base.Int.{ℤ, pos, negsuc}

-- The operations that the code uses, on `float` and on `double`. `pi`, `sqrt2` and `tiny` are the
-- constants `M_PI`, `M_SQRT2` and `1e-9`.
pub record Arith (Float Double : Type 0) : Type 0 where
  pub float_of : ℤ → Float
  pub float_add : Float → Float → Float
  pub float_mul : Float → Float → Float
  pub float_div : Float → Float → Float
  pub float_is_zero : Float → Bool
  pub to_float : Double → Float
  pub to_double : Float → Double
  pub double_of : ℤ → Double
  pub double_add : Double → Double → Double
  pub double_sub : Double → Double → Double
  pub double_mul : Double → Double → Double
  pub double_div : Double → Double → Double
  pub double_less : Double → Double → Bool
  pub double_abs : Double → Double
  pub double_sin : Double → Double
  pub double_cos : Double → Double
  pub to_int8 : Double → ℕ
  pub pi : Double
  pub sqrt2 : Double
  pub tiny : Double

-- `kOSR`, `kRrcSpan`, `kRrcTaps` and `kPolyTaps`
abbrev pub osr : ℕ
osr = 500

abbrev pub rrc_span : ℕ
rrc_span = 4

abbrev pub rrc_taps : ℕ
rrc_taps = rrc_span * 2 * osr + 1

abbrev pub poly_taps : ℕ
poly_taps = rrc_span * 2 + 1

-- The members of `C4FM`.
pub record Modulator (Float Double : Type 0) : Type 0 where
  pub poly : List (List Float)
  pub history : List Float
  pub hist_pos : ℕ
  pub phase : Double

module _ {Float Double : Type 0} (a : Arith Float Double) where
  -- `kSymbol[d & 3]`
  pub symbol : ℕ → Float
  symbol d =
      get_or
        (a.float_of (pos 1)
          ∷ a.float_of (pos 3)
          ∷ a.float_of (negsuc 0)
          ∷ a.float_of (negsuc 2)
          ∷ [])
        (bit_and d 3) (a.float_of (pos 0))

  -- `rrcSample`
  pub rrc_sample : Double → Double → Double → Double
  rrc_sample t period alpha =
      let one = a.double_of (pos 1) in
      let two = a.double_of (pos 2) in
      let four = a.double_of (pos 4) in
      if a.double_less (a.double_abs t) a.tiny
      then a.double_add (a.double_sub one alpha) (a.double_div (a.double_mul four alpha) a.pi)
      else if a.double_less
          (a.double_abs
            (a.double_sub (a.double_abs t) (a.double_div period (a.double_mul four alpha))))
          a.tiny
      then a.double_mul (a.double_div alpha a.sqrt2) (
          a.double_add
            (a.double_mul (a.double_add one (a.double_div two a.pi))
              (a.double_sin (a.double_div a.pi (a.double_mul four alpha))))
            (a.double_mul (a.double_sub one (a.double_div two a.pi))
              (a.double_cos (a.double_div a.pi (a.double_mul four alpha)))))
      else let tn = a.double_div t period in
        let squared = a.double_mul (a.double_mul four alpha) tn in
        let num =
          a.double_add (a.double_sin (a.double_mul (a.double_mul a.pi tn) (a.double_sub one alpha)))
            (a.double_mul squared
              (a.double_cos (a.double_mul (a.double_mul a.pi tn) (a.double_add one alpha)))) in
        let den =
          a.double_mul (a.double_mul a.pi tn) (a.double_sub one (a.double_mul squared squared)) in
        a.double_div num den

  -- The first loop of `buildFilter`, from a tap on. `kRrcAlpha` is 0.2, and `kSymbolRate` is 4800.
  pub taps_from : ℕ → ℕ → List Float
  taps_from i zero = []
  taps_from i (suc n) =
      let rate = a.double_of (pos 4800) in
      let centre = a.double_div (a.double_of (pos (rrc_taps - 1))) (a.double_of (pos 2)) in
      let alpha = a.double_div (a.double_of (pos 1)) (a.double_of (pos 5)) in
      let period = a.double_div (a.double_of (pos 1)) rate in
      let t =
        a.double_div
          (a.double_div (a.double_sub (a.double_of (pos i)) centre) (a.double_of (pos osr))) rate in
      a.to_float (rrc_sample t period alpha) ∷ taps_from (i + 1) n

  -- The taps with the centre at one.
  pub normalised : List Float → List Float
  normalised h =
      let one = a.float_of (pos 1) in
      let centre = get_or h (rrc_taps / 2) (a.float_of (pos 0)) in
      let scale = if a.float_is_zero centre then one else a.float_div one centre in
      map (λ v. a.float_mul v scale) h

  -- The inner loop of the split: the component of a phase, from a place on.
  pub component_from : List Float → ℕ → ℕ → ℕ → List Float
  component_from h p j zero = []
  component_from h p j (suc n) =
      (if ltb (j * osr + p) rrc_taps
        then get_or h (j * osr + p) (a.float_of (pos 0))
        else a.float_of (pos 0))
      ∷ component_from h p (j + 1) n

  -- The outer loop, from a phase on.
  pub components_from : List Float → ℕ → ℕ → List (List Float)
  components_from h p zero = []
  components_from h p (suc n) = component_from h p 0 poly_taps ∷ components_from h (p + 1) n

  -- The constructor, with `buildFilter`.
  pub new_modulator : Modulator Float Double
  new_modulator = record {
    poly = components_from (normalised (taps_from 0 rrc_taps)) 0 osr;
    history = replicate poly_taps (a.float_of (pos 0));
    hist_pos = 0;
    phase = a.double_of (pos 0);
  }

  -- The loop over the taps of a component, from a place on.
  pub filter_loop : List Float → List Float → ℕ → ℕ → ℕ → Float → Float
  filter_loop comp history hist_pos j zero acc = acc
  filter_loop comp history hist_pos j (suc n) acc =
      let idx = (hist_pos + poly_taps - 1 - j) % poly_taps in
      let f0 = a.float_of (pos 0) in
      filter_loop comp history hist_pos (j + 1) n
        (a.float_add acc (a.float_mul (get_or comp j f0) (get_or history idx f0)))

  -- `phaseInc`, with `kDeviationHz` and `kSampleRate`.
  pub phase_inc : Double
  phase_inc =
      a.double_div (a.double_mul (a.double_mul (a.double_of (pos 2)) a.pi) (a.double_of (pos 600)))
        (a.double_of (pos 2400000))

  -- The loop over the phases: the samples and the phase after them.
  pub sample_loop : List (List Float) → List Float → ℕ → Double → List ℕ × Double
  sample_loop [] history hist_pos phase = ([], phase)
  sample_loop (comp ∷ poly) history hist_pos phase =
      let acc = filter_loop comp history hist_pos 0 poly_taps (a.float_of (pos 0)) in
      let phase' = a.double_add phase (a.double_mul (a.to_double acc) phase_inc) in
      let hundred = a.double_of (pos 100) in
      let (out, last) = sample_loop poly history hist_pos phase' in
      (
        a.to_int8 (a.double_mul (a.double_cos phase') hundred)
            ∷ a.to_int8 (a.double_mul (a.double_sin phase') hundred)
            ∷ out,
        last,
      )

  -- `modulate`
  pub modulate : Modulator Float Double → List ℕ → List ℕ × Modulator Float Double
  modulate m [] = ([], m)
  modulate m (d ∷ dibits) =
      let history = set m.history m.hist_pos (symbol d) in
      let hist_pos = (m.hist_pos + 1) % poly_taps in
      let (samples, phase) = sample_loop m.poly history hist_pos m.phase in
      let (more, last) =
        modulate (record { poly = m.poly; history = history; hist_pos = hist_pos; phase = phase })
          dibits in
      (samples ++ more, last)
