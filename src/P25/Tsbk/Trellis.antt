-- ===== src/P25/Tsbk/Trellis.antt =====
-- `trellisEncode` of src/p25/TSBK.cpp: the rate-1/2 code, and a decoder that follows its table.
pub mod Decode
use site_sim.Base.{ℕ, List, [], ◌∷◌, ◌++◌, Option, none, some, get_elem?}

-- `kTrellisTable[state][dibit]`
abbrev pub trellis_table : List (List (ℕ × ℕ))
trellis_table =
    ((0, 2) ∷ (3, 0) ∷ (0, 1) ∷ (3, 3) ∷ [])
    ∷ ((3, 2) ∷ (0, 0) ∷ (3, 1) ∷ (0, 3) ∷ [])
    ∷ ((2, 1) ∷ (1, 3) ∷ (2, 2) ∷ (1, 0) ∷ [])
    ∷ ((1, 1) ∷ (2, 3) ∷ (1, 2) ∷ (2, 0) ∷ [])
    ∷ []

-- A read outside the table, which C++ leaves undefined, is `none`.
pub trellis_pair : ℕ → ℕ → Option (ℕ × ℕ)
trellis_pair state d = elim (get_elem? trellis_table state) [
  | none ↦ none
  | some row ↦ get_elem? row d
]

-- The loop from a state, over the dibits that are left.
pub trellis_loop : ℕ → List ℕ → Option (List ℕ)
trellis_loop state [] = some []
trellis_loop state (d ∷ ds) = elim (trellis_pair state d) [
  | none ↦ none
  | some (a, b) ↦ elim (trellis_loop d ds) [ none ↦ none | some out ↦ some (a ∷ b ∷ out) ]
]

-- `trellisEncode`: the input dibits and one flush dibit, from state 0.
pub trellis_encode : List ℕ → Option (List ℕ)
trellis_encode input = trellis_loop 0 (input ++ 0 ∷ [])
