-- ===== src/P25/C4fm/Tests.antt =====
-- Instances for src/p25/C4FM.cpp, over an arithmetic on natural numbers.
use site_sim.Base.{ℕ, ◌≡◌, refl, List, [], ◌∷◌, arith}
use site_sim.P25.C4fm.Samples.{numbers}
use site_sim.P25.C4fm.{Modulator, poly_taps, modulate}
use site_sim.P25.C4fm.Delay.{newest_from, line_modulate, modulate-line}

-- Two components, and a ring whose next place is the eighth.
abbrev small : Modulator ℕ ℕ
small = record {
  poly = (1 ∷ 2 ∷ 3 ∷ []) ∷ (4 ∷ 5 ∷ 6 ∷ []) ∷ [];
  history = 1 ∷ 2 ∷ 3 ∷ 4 ∷ 5 ∷ 6 ∷ 7 ∷ 8 ∷ 9 ∷ [];
  hist_pos = 7;
  phase = 0;
}

modulate-line_example :
    (modulate numbers small (0 ∷ 1 ∷ 3 ∷ [])).0
    ≡ line_modulate numbers small.poly
        (newest_from numbers small.history 7 0 poly_taps)
        0
        (0 ∷ 1 ∷ 3 ∷ [])
modulate-line_example = modulate-line numbers (0 ∷ 1 ∷ 3 ∷ []) small refl (omega arith)

abbrev two_dibits : List ℕ
two_dibits = 0 ∷ 3 ∷ []
