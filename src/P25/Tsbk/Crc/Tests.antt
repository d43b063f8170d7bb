-- ===== src/P25/Tsbk/Crc/Tests.antt =====
-- Instances for `crcCCITT` of src/p25/TSBK.cpp.
use site_sim.Base.{ℕ, ◌≡◌, ◌≢◌, refl, ap, List, [], ◌∷◌, ◌++◌, replicate, get_or, arith}
use site_sim.P25.Tsbk.Crc.{crc_ccitt}
use site_sim.P25.Tsbk.Crc.Burst.{crc_ccitt_burst, message_bits}

-- The last two bits of the arguments are 11 in one block and 01 in the other.
abbrev three_ends : List ℕ
three_ends = 1 ∷ 1 ∷ []

abbrev one_ends : List ℕ
one_ends = 0 ∷ 1 ∷ []

burst_differs : three_ends ≢ one_ends
burst_differs e = one_ne_zero (ap (λ xs. get_or xs 0 7) e)
  where
    one_ne_zero : get_or three_ends 0 7 ≢ get_or one_ends 0 7
    one_ne_zero = omega arith

low_of_three : message_bits 0x8000 3 ≡ (1 ∷ replicate 77 0) ++ (three_ends ++ [])
unfolding message_bits
low_of_three = refl

low_of_one : message_bits 0x8000 1 ≡ (1 ∷ replicate 77 0) ++ (one_ends ++ [])
unfolding message_bits
low_of_one = refl

crc_ccitt_burst_example : crc_ccitt 0x8000 3 ≢ crc_ccitt 0x8000 1
crc_ccitt_burst_example =
    crc_ccitt_burst 0x8000 3 0x8000 1 (1 ∷ replicate 77 0) three_ends one_ends [] low_of_three
      low_of_one refl (omega arith) burst_differs
