-- ===== src/P25/C4fm/Delay.antt =====
-- `modulate` of src/p25/C4FM.cpp with its ring of symbols as a delay line.
use site_sim.Base.{
  ℕ, zero, suc, ◌+◌, ◌-◌, ◌*◌, ◌%◌, ◌≤◌, ◌<◌, ◌≡◌, ◌≢◌, refl, ap, ap₂, ◌∙◌, List, [], ◌∷◌, ◌++◌,
  length, length-append, length-set, get_or, set, take, arith,
}
use site_sim.Base.Int.{pos}
use site_sim.P25.C4fm.{
  Arith, Modulator, osr, poly_taps, symbol, filter_loop, phase_inc, sample_loop, modulate,
  components_from, new_modulator,
}

get_or-set_same :
    {A : Type 0} (xs : List A) (i : ℕ) (v d : A) → i < length xs → get_or (set xs i v) i d ≡ v
get_or-set_same [] i v d h = absurd (omega arith)
get_or-set_same (x ∷ xs) zero v d h = refl
get_or-set_same (x ∷ xs) (suc i) v d h = get_or-set_same xs i v d (omega arith)

get_or-set_other :
    {A : Type 0} (xs : List A) (i j : ℕ) (v d : A) → i ≢ j → get_or (set xs i v) j d ≡ get_or xs j d
get_or-set_other [] i j v d h = refl
get_or-set_other (x ∷ xs) zero zero v d h = absurd (h refl)
get_or-set_other (x ∷ xs) zero (suc j) v d h = refl
get_or-set_other (x ∷ xs) (suc i) zero v d h = refl
get_or-set_other (x ∷ xs) (suc i) (suc j) v d h = get_or-set_other xs i j v d (omega (arith, h))

module _ {Float Double : Type 0} (a : Arith Float Double) where
  -- The weighted sum of a delay line, the newest symbol first.
  abbrev pub weigh : List Float → ℕ → List Float → Float → Float
  weigh comp j [] acc = acc
  weigh comp j (x ∷ line) acc =
      weigh comp (j + 1) line (a.float_add acc (a.float_mul (get_or comp j (a.float_of (pos 0))) x))

  -- The samples of one symbol: one weighted sum for each component.
  abbrev pub line_samples : List (List Float) → List Float → Double → List ℕ × Double
  line_samples [] line phase = ([], phase)
  line_samples (comp ∷ poly) line phase =
      let acc = weigh comp 0 line (a.float_of (pos 0)) in
      let phase' = a.double_add phase (a.double_mul (a.to_double acc) (phase_inc a)) in
      let hundred = a.double_of (pos 100) in
      let (out, last) = line_samples poly line phase' in
      (
        a.to_int8 (a.double_mul (a.double_cos phase') hundred)
            ∷ a.to_int8 (a.double_mul (a.double_sin phase') hundred)
            ∷ out,
        last,
      )

  -- The modulator with a delay line of nine symbols.
  abbrev pub line_modulate : List (List Float) → List Float → Double → List ℕ → List ℕ
  line_modulate poly line phase [] = []
  line_modulate poly line phase (d ∷ dibits) =
      let line' = symbol a d ∷ take 8 line in
      let (samples, phase') = line_samples poly line' phase in
      samples ++ line_modulate poly line' phase' dibits

  -- The symbols of a ring, the newest first.
  abbrev pub newest_from : List Float → ℕ → ℕ → ℕ → List Float
  newest_from history hist_pos j zero = []
  newest_from history hist_pos j (suc n) =
      get_or history ((hist_pos + poly_taps - 1 - j) % poly_taps) (a.float_of (pos 0))
      ∷ newest_from history hist_pos (j + 1) n

  filter_loop-weigh :
      (n : ℕ) (comp history : List Float) (hist_pos j : ℕ) (acc : Float)
      → filter_loop a comp history hist_pos j n acc
        ≡ weigh comp j (newest_from history hist_pos j n) acc
  unfolding filter_loop
  filter_loop-weigh zero comp history hist_pos j acc = refl
  filter_loop-weigh (suc n) comp history hist_pos j acc =
      filter_loop-weigh n comp history hist_pos (j + 1) _

  abbrev emit : Double → List ℕ × Double → List ℕ × Double
  emit phase (out, last) =
      let hundred = a.double_of (pos 100) in
      (
        a.to_int8 (a.double_mul (a.double_cos phase) hundred)
            ∷ a.to_int8 (a.double_mul (a.double_sin phase) hundred)
            ∷ out,
        last,
      )

  sample_loop-line :
      (poly : List (List Float)) (history : List Float) (hist_pos : ℕ) (phase : Double)
      → sample_loop a poly history hist_pos phase
        ≡ line_samples poly (newest_from history hist_pos 0 poly_taps) phase
  unfolding sample_loop
  sample_loop-line [] history hist_pos phase = refl
  sample_loop-line (comp ∷ poly) history hist_pos phase =
      let turned =
        λ (acc : Float). a.double_add phase (a.double_mul (a.to_double acc) (phase_inc a)) in
      let acc = weigh comp 0 (newest_from history hist_pos 0 poly_taps) (a.float_of (pos 0)) in
      ap (λ t. emit (turned t) (sample_loop a poly history hist_pos (turned t)))
        (filter_loop-weigh poly_taps comp history hist_pos 0 (a.float_of (pos 0)))
      ∙ ap (emit (turned acc)) (sample_loop-line poly history hist_pos (turned acc))

  module _ (history : List Float) (hist_pos : ℕ) (v : Float) (h : hist_pos < poly_taps) where
    older :
        (n j : ℕ)
        → j + n ≤ 8
        → newest_from (set history hist_pos v) ((hist_pos + 1) % poly_taps) (j + 1) n
          ≡ newest_from history hist_pos j n
    older zero j k = refl
    older (suc n) j k =
        let index : ((hist_pos + 1) % poly_taps + poly_taps - 1 - (j + 1)) % poly_taps
            ≡ (hist_pos + poly_taps - 1 - j) % poly_taps =
          omega arith in
        ap₂ ◌∷◌
          (ap (λ i. get_or (set history hist_pos v) i (a.float_of (pos 0))) index
            ∙ get_or-set_other history hist_pos ((hist_pos + poly_taps - 1 - j) % poly_taps) v
                (a.float_of (pos 0)) (omega arith))
          (older n (j + 1) (omega arith))

    pushed :
        length history ≡ poly_taps
        → newest_from (set history hist_pos v) ((hist_pos + 1) % poly_taps) 0 poly_taps
          ≡ v ∷ take 8 (newest_from history hist_pos 0 poly_taps)
    pushed size =
        let index : ((hist_pos + 1) % poly_taps + poly_taps - 1 - 0) % poly_taps ≡ hist_pos =
          omega arith in
        ap₂ ◌∷◌
          (ap (λ i. get_or (set history hist_pos v) i (a.float_of (pos 0))) index
            ∙ get_or-set_same history hist_pos v (a.float_of (pos 0)) (omega (arith, size, h)))
          (older 8 0 (omega arith))

  -- From a ring of nine symbols with its position in bounds, the modulator gives the samples of one
  -- that has the nine newest symbols in a delay line.
  pub modulate-line :
      (dibits : List ℕ) (m : Modulator Float Double)
      → length m.history ≡ poly_taps
      → m.hist_pos < poly_taps
      → (modulate a m dibits).0
        ≡ line_modulate m.poly (newest_from m.history m.hist_pos 0 poly_taps) m.phase dibits
  unfolding modulate
  modulate-line [] m size h = refl
  modulate-line (d ∷ dibits) m size h =
      let history = set m.history m.hist_pos (symbol a d) in
      let hist_pos = (m.hist_pos + 1) % poly_taps in
      let line = newest_from m.history m.hist_pos 0 poly_taps in
      let line' = newest_from history hist_pos 0 poly_taps in
      let (samples, phase) = sample_loop a m.poly history hist_pos m.phase in
      let shifted : line' ≡ symbol a d ∷ take 8 line =
        pushed m.history m.hist_pos (symbol a d) h size in
      let later =
        modulate-line dibits
          (record { poly = m.poly; history = history; hist_pos = hist_pos; phase = phase })
          (length-set m.history m.hist_pos (symbol a d) ∙ size) (omega arith) in
      ap (◌++◌ samples) later
      ∙ ap (λ r. r.0 ++ line_modulate m.poly line' r.1 dibits)
          (sample_loop-line m.poly history hist_pos m.phase)
      ∙ ap
          (λ l.
            (line_samples m.poly l m.phase).0
            ++ line_modulate m.poly l (line_samples m.poly l m.phase).1 dibits)
          shifted

  length-sample_loop :
      (poly : List (List Float)) (history : List Float) (hist_pos : ℕ) (phase : Double)
      → length (sample_loop a poly history hist_pos phase).0 ≡ 2 * length poly
  unfolding sample_loop
  length-sample_loop [] history hist_pos phase = refl
  length-sample_loop (comp ∷ poly) history hist_pos phase =
      omega (arith, length-sample_loop poly history hist_pos _)

  -- The modulator keeps its filter.
  pub modulate-poly :
      (dibits : List ℕ) (m : Modulator Float Double) → (modulate a m dibits).1.poly ≡ m.poly
  unfolding modulate
  modulate-poly [] m = refl
  modulate-poly (d ∷ dibits) m =
      let history = set m.history m.hist_pos (symbol a d) in
      let hist_pos = (m.hist_pos + 1) % poly_taps in
      modulate-poly dibits (record {
        poly = m.poly;
        history = history;
        hist_pos = hist_pos;
        phase = (sample_loop a m.poly history hist_pos m.phase).1;
      })

  pub length-modulate :
      (dibits : List ℕ) (m : Modulator Float Double)
      → length m.poly ≡ osr
      → length (modulate a m dibits).0 ≡ 1000 * length dibits
  unfolding modulate
  length-modulate [] m size = refl
  length-modulate (d ∷ dibits) m size =
      let history = set m.history m.hist_pos (symbol a d) in
      let hist_pos = (m.hist_pos + 1) % poly_taps in
      let samples = sample_loop a m.poly history hist_pos m.phase in
      let later =
        length-modulate dibits
          (record { poly = m.poly; history = history; hist_pos = hist_pos; phase = samples.1 })
          size in
      let one = length-sample_loop m.poly history hist_pos m.phase in
      length-append samples.0 _ ∙ omega (arith, one, later, size)

  length-components_from : (h : List Float) (p n : ℕ) → length (components_from a h p n) ≡ n
  unfolding components_from
  length-components_from h p zero = refl
  length-components_from h p (suc n) = ap suc (length-components_from h (p + 1) n)

  -- A new modulator makes a thousand bytes of each dibit.
  pub length-modulate-new_modulator :
      (dibits : List ℕ) → length (modulate a (new_modulator a) dibits).0 ≡ 1000 * length dibits
  unfolding new_modulator
  length-modulate-new_modulator dibits =
      length-modulate dibits (new_modulator a) (length-components_from _ 0 osr)
