-- ===== src/P25/Tsbk/Interleave/Inverse.antt =====
-- The interleaver is a permutation of the 98 places, and the inverse permutation undoes it.
use site_sim.Base.{
  ℕ, zero, suc, ◌+◌, ◌<◌, ◌≡◌, refl, sym, ap, ap₂, ◌∙◌, List, [], ◌∷◌, map, get_or, length,
  length-map, get_or-map, All, ◌==◌, if◌then◌else◌, arith,
}
use site_sim.P25.Tsbk.Interleave.{copy_pairs, copy_columns, data_interleave}

abbrev pub range_from : ℕ → ℕ → List ℕ
range_from i zero = []
range_from i (suc n) = i ∷ range_from (suc i) n

-- Where each dibit of the output comes from.
abbrev pub interleave_order : List ℕ
interleave_order =
    0 ∷ 1 ∷ 8 ∷ 9 ∷ 16 ∷ 17 ∷ 24 ∷ 25 ∷ 32 ∷ 33 ∷ 40 ∷ 41 ∷ 48 ∷ 49 ∷ 56 ∷ 57 ∷ 64 ∷ 65 ∷ 72 ∷ 73
    ∷ 80 ∷ 81 ∷ 88 ∷ 89 ∷ 96 ∷ 97 ∷ 2 ∷ 3 ∷ 10 ∷ 11 ∷ 18 ∷ 19 ∷ 26 ∷ 27 ∷ 34 ∷ 35 ∷ 42 ∷ 43 ∷ 50
    ∷ 51 ∷ 58 ∷ 59 ∷ 66 ∷ 67 ∷ 74 ∷ 75 ∷ 82 ∷ 83 ∷ 90 ∷ 91 ∷ 4 ∷ 5 ∷ 12 ∷ 13 ∷ 20 ∷ 21 ∷ 28 ∷ 29
    ∷ 36 ∷ 37 ∷ 44 ∷ 45 ∷ 52 ∷ 53 ∷ 60 ∷ 61 ∷ 68 ∷ 69 ∷ 76 ∷ 77 ∷ 84 ∷ 85 ∷ 92 ∷ 93 ∷ 6 ∷ 7 ∷ 14
    ∷ 15 ∷ 22 ∷ 23 ∷ 30 ∷ 31 ∷ 38 ∷ 39 ∷ 46 ∷ 47 ∷ 54 ∷ 55 ∷ 62 ∷ 63 ∷ 70 ∷ 71 ∷ 78 ∷ 79 ∷ 86 ∷ 87
    ∷ 94 ∷ 95 ∷ []

pub data_interleave-order :
    (input : List ℕ) → data_interleave input ≡ map (λ i. get_or input i 0) interleave_order
unfolding data_interleave copy_columns copy_pairs
data_interleave-order input = refl

-- The place of a number in a list.
abbrev index_of : ℕ → List ℕ → ℕ
index_of i [] = 0
index_of i (x ∷ xs) = let rest = index_of i xs in if x == i then 0 else suc rest

abbrev pub inverse_order : List ℕ
inverse_order = map (λ i. index_of i interleave_order) (range_from 0 98)

pub data_deinterleave : List ℕ → List ℕ
data_deinterleave input = map (λ i. get_or input i 0) inverse_order

orders_inverse : map (λ i. get_or interleave_order i 0) inverse_order ≡ range_from 0 98
orders_inverse = refl

map-range_from :
    (xs : List ℕ) (i : ℕ) (f : ℕ → ℕ)
    → ((j : ℕ) → f (i + j) ≡ get_or xs j 0)
    → map f (range_from i (length xs)) ≡ xs
map-range_from [] i f h = refl
map-range_from (x ∷ xs) i f h =
    ap₂ ◌∷◌ (ap f (omega arith) ∙ h 0)
      (map-range_from xs (suc i) f (λ j. ap f (omega arith) ∙ h (suc j)))

map-comp_below :
    (f : ℕ → ℕ) (order places : List ℕ)
    → All (λ i. i < length order) places
    → map (λ i. get_or (map f order) i 0) places ≡ map f (map (λ i. get_or order i 0) places)
map-comp_below f order [] h = refl
map-comp_below f order (p ∷ ps) h =
    ap₂ ◌∷◌ (get_or-map f order p 0 0 h.0) (map-comp_below f order ps h.1)

inverse_order_below : All (λ i. i < length interleave_order) inverse_order
inverse_order_below = omega arith

-- Of 98 dibits, the deinterleaver puts every one back into its place.
pub deinterleave-interleave :
    (input : List ℕ) → length input ≡ 98 → data_deinterleave (data_interleave input) ≡ input
unfolding data_deinterleave
deinterleave-interleave input len =
    ap (λ t. map (λ i. get_or t i 0) inverse_order) (data_interleave-order input)
    ∙ map-comp_below (λ i. get_or input i 0) interleave_order inverse_order inverse_order_below
    ∙ ap (map (λ i. get_or input i 0)) orders_inverse
    ∙ ap (λ n. map (λ i. get_or input i 0) (range_from 0 n)) (sym len)
    ∙ map-range_from input 0 (λ i. get_or input i 0) (λ j. ap (λ i. get_or input i 0) (omega arith))

pub length-data_interleave : (input : List ℕ) → length (data_interleave input) ≡ 98
length-data_interleave input =
    ap length (data_interleave-order input) ∙ length-map (λ i. get_or input i 0) interleave_order
