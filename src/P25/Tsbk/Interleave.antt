-- ===== src/P25/Tsbk/Interleave.antt =====
-- `dataInterleave` of src/p25/TSBK.cpp. The loops read at fixed places, all inside the 98 dibits
-- (`interleave_order` lists them), and append to the output.
pub mod Inverse
use site_sim.Base.{ℕ, zero, suc, ◌+◌, List, [], ◌∷◌, ◌++◌, get_or, ltb, if◌then◌else◌}

-- `for (j …; j < limit; j += 8)`, copying the dibits at `i + j` and `i + j + 1`, in at most so many
-- rounds.
pub copy_pairs : ℕ → List ℕ → ℕ → ℕ → ℕ → List ℕ
copy_pairs zero input i j limit = []
copy_pairs (suc rounds) input i j limit =
    let rest = copy_pairs rounds input i (j + 8) limit in
    if ltb j limit then get_or input (i + j) 0 ∷ get_or input (i + j + 1) 0 ∷ rest else []

-- `for (i …; i < 7; i += 2)`
pub copy_columns : ℕ → List ℕ → ℕ → List ℕ
copy_columns zero input i = []
copy_columns (suc rounds) input i =
    let rest = copy_columns rounds input (i + 2) in
    if ltb i 7 then copy_pairs 13 input i 0 89 ++ rest else []

-- `dataInterleave`. Thirteen, twelve and three rounds are made; one more is left for the last test.
pub data_interleave : List ℕ → List ℕ
data_interleave input = copy_pairs 14 input 0 0 97 ++ copy_columns 4 input 2
