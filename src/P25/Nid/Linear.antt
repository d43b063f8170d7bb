-- ===== src/P25/Nid/Linear.antt =====
-- The encoder as a linear map: it adds up, by exclusive or, the rows that the data bits select.
use mathlib.Core.Bool.{xor}
use site_sim.Base.{
  ℕ, zero, suc, ◌+◌, ◌<◌, ◌/◌, ◌^◌, bit_and, bit_xor, ◌≡◌, refl, sym, ap, ◌∙◌, inl, inr, List, [],
  ◌∷◌, ◌==◌, if◌then◌else◌, ◌>>◌, arith, length, All, Bool, true, false, not, Bool-cases, all_words,
  all_words_sound, ==_iff,
}
use site_sim.Bits.{bit_xor_assoc, bit_xor_comm, bit_xor_self, bit_xor-zero, bit_xor-lt}
use site_sim.P25.Nid.{bch_matrix, encode_rows, encode_bch}

-- Whether the loop adds row `i`.
abbrev pub selects : ℕ → ℕ → Bool
selects i x = not (bit_and x (0x8000 >> i) == 0)

abbrev pub selection : ℕ → ℕ → ℕ → List Bool
selection zero i x = []
selection (suc n) i x = selects i x ∷ selection n (i + 1) x

-- The sum of an accumulator and the selected rows.
unfoldable pub combine : List ℕ → List Bool → ℕ → ℕ
combine [] bs acc = acc
combine (row ∷ rows) [] acc = acc
combine (row ∷ rows) (b ∷ bs) acc = combine rows bs (if b then bit_xor acc row else acc)

encode_rows-combine :
    (rows : List ℕ) (i x acc : ℕ)
    → encode_rows rows i x acc ≡ combine rows (selection (length rows) i x) acc
unfolding encode_rows combine
encode_rows-combine [] i x acc = refl
encode_rows-combine (row ∷ rows) i x acc = elim (Bool-cases (bit_and x (0x8000 >> i) == 0)) [
  | inl e ↦ rw e (encode_rows-combine rows (i + 1) x acc)
  | inr e ↦ rw e (encode_rows-combine rows (i + 1) x (bit_xor acc row))
]

pub encode_bch-combine : (x : ℕ) → encode_bch x ≡ combine bch_matrix (selection 16 0 x) 0
unfolding encode_bch
encode_bch-combine x = encode_rows-combine bch_matrix 0 x 0

-- The rows selected by exactly one of two selections.
abbrev pub differing : List Bool → List Bool → List Bool
differing [] cs = []
differing (b ∷ bs) [] = []
differing (b ∷ bs) (c ∷ cs) = xor b c ∷ differing bs cs

bit_xor_swap : (a b r : ℕ) → bit_xor (bit_xor a r) b ≡ bit_xor (bit_xor a b) r
bit_xor_swap a b r =
    bit_xor_assoc a r b ∙ ap (bit_xor a) (bit_xor_comm r b) ∙ sym (bit_xor_assoc a b r)

bit_xor_cancel : (a b r : ℕ) → bit_xor (bit_xor a r) (bit_xor b r) ≡ bit_xor a b
bit_xor_cancel a b r =
    bit_xor_assoc a r (bit_xor b r)
    ∙ ap (bit_xor a) (
        sym (bit_xor_assoc r b r)
        ∙ ap (λ t. bit_xor t r) (bit_xor_comm r b)
        ∙ bit_xor_assoc b r r
        ∙ ap (bit_xor b) (bit_xor_self r)
        ∙ bit_xor-zero b)

pub combine-bit_xor :
    (rows : List ℕ) (bs cs : List Bool) (a b : ℕ)
    → length bs ≡ length cs
    → bit_xor (combine rows bs a) (combine rows cs b) ≡ combine rows (differing bs cs) (bit_xor a b)
unfolding combine xor
combine-bit_xor [] bs cs a b e = refl
combine-bit_xor (row ∷ rows) [] [] a b e = refl
combine-bit_xor (row ∷ rows) [] (c ∷ cs) a b e = absurd (omega arith)
combine-bit_xor (row ∷ rows) (x ∷ bs) [] a b e = absurd (omega arith)
combine-bit_xor (row ∷ rows) (true ∷ bs) (true ∷ cs) a b e =
    combine-bit_xor rows bs cs (bit_xor a row) (bit_xor b row) (omega arith)
    ∙ ap (combine rows (differing bs cs)) (bit_xor_cancel a b row)
combine-bit_xor (row ∷ rows) (true ∷ bs) (false ∷ cs) a b e =
    combine-bit_xor rows bs cs (bit_xor a row) b (omega arith)
    ∙ ap (combine rows (differing bs cs)) (bit_xor_swap a b row)
combine-bit_xor (row ∷ rows) (false ∷ bs) (true ∷ cs) a b e =
    combine-bit_xor rows bs cs a (bit_xor b row) (omega arith)
    ∙ ap (combine rows (differing bs cs)) (sym (bit_xor_assoc a b row))
combine-bit_xor (row ∷ rows) (false ∷ bs) (false ∷ cs) a b e =
    combine-bit_xor rows bs cs a b (omega arith)

systematic_table : all_words 16 0 (λ x. encode_bch x / 2 ^ 48 == x) ≡ true
unfolding all_words encode_bch
systematic_table = refl

-- The code is systematic: of a word of 16 bits, the identifier has that word in its top 16 bits.
pub encode_bch-top : (x : ℕ) → x < 2 ^ 16 → encode_bch x / 2 ^ 48 ≡ x
encode_bch-top x h = (==_iff _ x).0 (all_words_sound 16 x _ systematic_table h)

encode_rows-lt :
    (rows : List ℕ) (i x acc : ℕ)
    → All (λ row. row < 2 ^ 64) rows
    → acc < 2 ^ 64
    → encode_rows rows i x acc < 2 ^ 64
unfolding encode_rows
encode_rows-lt [] i x acc h k = k
encode_rows-lt (row ∷ rows) i x acc h k = elim (Bool-cases (bit_and x (0x8000 >> i) == 0)) [
  | inl e ↦ rw e (encode_rows-lt rows (i + 1) x acc h.1 k)
  | inr e ↦ rw e (encode_rows-lt rows (i + 1) x (bit_xor acc row) h.1 (bit_xor-lt 64 acc row k h.0))
]

pub encode_bch-lt : (x : ℕ) → encode_bch x < 2 ^ 64
unfolding encode_bch
encode_bch-lt x = encode_rows-lt bch_matrix 0 x 0 (omega arith) (omega arith)
