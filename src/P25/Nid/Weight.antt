-- ===== src/P25/Nid/Weight.antt =====
-- The weights of the code words, found by going through all sums of rows of the matrix.
use site_sim.Base.{
  ℕ, zero, suc, ◌+◌, ◌/◌, ◌%◌, ◌≤◌, bit_xor, ◌≡◌, refl, List, [], ◌∷◌, arith, Bool, true, false,
  length, ◌&&◌, ◌||◌, leb, leb→le, and-true,
}
use site_sim.P25.Nid.{bch_matrix}
use site_sim.P25.Nid.Linear.{combine}

-- How many of the lowest `n` bits are ones.
unfoldable pub weight : ℕ → ℕ → ℕ
weight zero x = 0
weight (suc n) x = x % 2 + weight n (x / 2)

-- Every sum of the accumulator and some of the rows has at least `d` ones.
pub heavy : ℕ → List ℕ → ℕ → Bool
heavy d [] acc = leb d (weight 64 acc)
heavy d (row ∷ rows) acc = heavy d rows acc && heavy d rows (bit_xor acc row)

combine-nil : (rows : List ℕ) (acc : ℕ) → combine rows [] acc ≡ acc
unfolding combine
combine-nil [] acc = refl
combine-nil (row ∷ rows) acc = refl

heavy_sound :
    (d : ℕ) (rows : List ℕ) (bs : List Bool) (acc : ℕ)
    → heavy d rows acc ≡ true
    → d ≤ weight 64 (combine rows bs acc)
unfolding heavy combine
heavy_sound d [] bs acc h = leb→le d (weight 64 acc) h
heavy_sound d (row ∷ rows) [] acc h =
    let without = heavy_sound d rows [] acc (and-true (heavy d rows acc) _ h).0 in
    rw combine-nil at without
heavy_sound d (row ∷ rows) (true ∷ bs) acc h =
    heavy_sound d rows bs (bit_xor acc row) (and-true (heavy d rows acc) _ h).1
heavy_sound d (row ∷ rows) (false ∷ bs) acc h =
    heavy_sound d rows bs acc (and-true (heavy d rows acc) _ h).0

-- The same of every sum of at least one row.
pub spread : ℕ → List ℕ → Bool
spread d [] = true
spread d (row ∷ rows) = heavy d rows (bit_xor 0 row) && spread d rows

unfoldable pub any : List Bool → Bool
any [] = false
any (b ∷ bs) = b || any bs

abbrev other_rows : List ℕ
other_rows =
    0x4000ab5a8e33a6be ∷ 0x2000983e4cc4e874 ∷ 0x10004c1f2662743a ∷ 0x0800eb9c98ec0136
    ∷ 0x0400b85d47ab3bb0 ∷ 0x02005c2ea3d59dd8 ∷ 0x01002e1751eaceec ∷ 0x0080170ba8f56776
    ∷ 0x0040c616dfa78890 ∷ 0x0020630b6fd3c448 ∷ 0x00103185b7e9e224 ∷ 0x000818c2dbf4f112
    ∷ 0x0004c1f2662743a2 ∷ 0x0002ad6a38ce9afb ∷ 0x00019b2617ba7657 ∷ []

first_row_heavy : heavy 23 other_rows 0x8000cd930bdd3b2a ≡ true
unfolding heavy weight
first_row_heavy = refl

other_rows-spread : spread 23 other_rows ≡ true
unfolding spread heavy weight
other_rows-spread = refl

spread-cons :
    (d row : ℕ) (rows : List ℕ)
    → heavy d rows (bit_xor 0 row) ≡ true
    → spread d rows ≡ true
    → spread d (row ∷ rows) ≡ true
unfolding spread
spread-cons d row rows h k = rw (h, k)

pub bch_matrix-spread : spread 23 bch_matrix ≡ true
bch_matrix-spread = spread-cons 23 0x8000cd930bdd3b2a other_rows first_row_heavy other_rows-spread

pub spread_sound :
    (d : ℕ) (rows : List ℕ) (bs : List Bool)
    → spread d rows ≡ true
    → length bs ≡ length rows
    → any bs ≡ true
    → d ≤ weight 64 (combine rows bs 0)
unfolding spread combine any
spread_sound d rows [] h e k = cc
spread_sound d [] (b ∷ bs) h e k = absurd (omega arith)
spread_sound d (row ∷ rows) (true ∷ bs) h e k =
    heavy_sound d rows bs (bit_xor 0 row) (and-true (heavy d rows (bit_xor 0 row)) _ h).0
spread_sound d (row ∷ rows) (false ∷ bs) h e k =
    spread_sound d rows bs (and-true (heavy d rows (bit_xor 0 row)) _ h).1 (omega arith) k
