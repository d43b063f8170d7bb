-- ===== src/P25/C4fm/Poly.antt =====
-- The split of the filter of src/p25/C4FM.cpp into its components.
use site_sim.Base.{
  ℕ, zero, suc, ◌+◌, ◌*◌, ◌<◌, ◌≡◌, ap, ◌∙◌, List, [], get_or, ltb, if◌then◌else◌, arith,
}
use site_sim.Base.Int.{pos}
use site_sim.P25.C4fm.{Arith, osr, rrc_taps, poly_taps, component_from, components_from}

module _ {Float Double : Type 0} (a : Arith Float Double) (h : List Float) where
  -- The tap at a place, or zero beyond the last.
  abbrev pub tap : ℕ → Float
  tap i = if ltb i rrc_taps then get_or h i (a.float_of (pos 0)) else a.float_of (pos 0)

  at_component :
      (p j n k : ℕ) (d : Float)
      → k < n
      → get_or (component_from a h p j n) k d ≡ tap ((j + k) * osr + p)
  unfolding component_from
  at_component p j zero k d less = absurd (omega arith)
  at_component p j (suc n) zero d less = ap tap (omega arith)
  at_component p j (suc n) (suc k) d less =
      at_component p (j + 1) n k d (omega arith) ∙ ap tap (omega arith)

  at_components :
      (p n k : ℕ) (d : List Float)
      → k < n
      → get_or (components_from a h p n) k d ≡ component_from a h (p + k) 0 poly_taps
  unfolding components_from
  at_components p zero k d less = absurd (omega arith)
  at_components p (suc n) zero d less = ap (λ q. component_from a h q 0 poly_taps) (omega arith)
  at_components p (suc n) (suc k) d less =
      at_components (p + 1) n k d (omega arith)
      ∙ ap (λ q. component_from a h q 0 poly_taps) (omega arith)

  -- Component p of the 500 has at each place j of its nine the tap j * 500 + p of the filter, or zero
  -- beyond the last tap.
  pub components_from-tap :
      (p j : ℕ) (d : Float)
      → p < osr
      → j < poly_taps
      → get_or (get_or (components_from a h 0 osr) p []) j d ≡ tap (j * osr + p)
  components_from-tap p j d less small =
      ap (λ c. get_or c j d) (at_components 0 osr p [] less)
      ∙ at_component (0 + p) 0 poly_taps j d small
      ∙ ap tap (omega arith)
