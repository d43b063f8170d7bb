-- ===== src/P25/Nid/Distance.antt =====
-- How far apart the code words of two data words are.
use mathlib.Core.Bool.{xor}
use site_sim.Base.{
  ℕ, zero, suc, ◌+◌, ◌*◌, ◌/◌, ◌%◌, ◌≤◌, ◌<◌, ◌^◌, bit_xor, ◌≡◌, ◌≢◌, refl, sym, ap, ap₂, ◌∙◌, List,
  [], ◌∷◌, length, arith, Bool, true, false, Bool-cases, inl, inr,
}
use site_sim.Bits.{bit_or_fields, bit_xor-half, bit_xor-parity}
use site_sim.P25.Nid.{bch_matrix, encode_bch, nid_word, duid_tdu, duid_tsbk}
use site_sim.P25.Nid.Linear.{
  combine, selection, differing, encode_bch-combine, combine-bit_xor, encode_bch-top,
}
use site_sim.P25.Nid.Weight.{weight, any, spread_sound, bch_matrix-spread}

-- At how many of the lowest `n` bits two words differ.
pub hamming : ℕ → ℕ → ℕ → ℕ
hamming zero x y = 0
hamming (suc n) x y = (x + y) % 2 + hamming n (x / 2) (y / 2)

hamming-weight : (n x y : ℕ) → hamming n x y ≡ weight n (bit_xor x y)
unfolding hamming weight
hamming-weight zero x y = refl
hamming-weight (suc n) x y =
    rw (bit_xor-half, bit_xor-parity) (omega (arith, hamming-weight n (x / 2) (y / 2)))

same_selection :
    (bs cs : List Bool) → length bs ≡ length cs → any (differing bs cs) ≡ false → bs ≡ cs
unfolding any xor
same_selection [] [] e h = refl
same_selection [] (c ∷ cs) e h = absurd (omega arith)
same_selection (b ∷ bs) [] e h = absurd (omega arith)
same_selection (true ∷ bs) (true ∷ cs) e h =
    ap (λ t. true ∷ t) (same_selection bs cs (omega arith) h)
same_selection (true ∷ bs) (false ∷ cs) e h = cc
same_selection (false ∷ bs) (true ∷ cs) e h = cc
same_selection (false ∷ bs) (false ∷ cs) e h =
    ap (λ t. false ∷ t) (same_selection bs cs (omega arith) h)

selection-injective :
    (x y : ℕ) → x < 2 ^ 16 → y < 2 ^ 16 → selection 16 0 x ≡ selection 16 0 y → x ≡ y
selection-injective x y hx hy e =
    sym (encode_bch-top x hx)
    ∙ ap (λ t. t / 2 ^ 48)
        (encode_bch-combine x ∙ ap (λ t. combine bch_matrix t 0) e ∙ sym (encode_bch-combine y))
    ∙ encode_bch-top y hy

-- The identifiers of two different words of 16 bits differ in at least 23 of their 64 bits.
pub encode_bch_distance :
    (x y : ℕ) → x < 2 ^ 16 → y < 2 ^ 16 → x ≢ y → 23 ≤ hamming 64 (encode_bch x) (encode_bch y)
encode_bch_distance x y hx hy ne = elim (Bool-cases (any rows)) [
  | inl some_row ↦ rw sum_of_rows (spread_sound 23 bch_matrix rows bch_matrix-spread refl some_row)
  | inr no_row ↦ absurd (
      ne (
        selection-injective x y hx hy
          (same_selection (selection 16 0 x) (selection 16 0 y) refl no_row)))
]
  where
    rows : List Bool
    rows = differing (selection 16 0 x) (selection 16 0 y)

    sum_of_rows : hamming 64 (encode_bch x) (encode_bch y) ≡ weight 64 (combine bch_matrix rows 0)
    sum_of_rows =
        hamming-weight 64 (encode_bch x) (encode_bch y)
        ∙ ap (weight 64) (
            ap₂ bit_xor (encode_bch-combine x) (encode_bch-combine y)
            ∙ combine-bit_xor bch_matrix (selection 16 0 x) (selection 16 0 y) 0 0 refl)

nid_word_lem : (nac duid : ℕ) → duid < 16 → nid_word nac duid ≡ (nac * 16 + duid) % 2 ^ 16
unfolding nid_word
nid_word_lem nac duid h = rw (bit_or_fields 4 nac duid h) refl

-- The identifiers of the two sorts of frame are not the same.
pub duids-differ :
    (nac : ℕ) → encode_bch (nid_word nac duid_tdu) ≢ encode_bch (nid_word nac duid_tsbk)
duids-differ nac h =
    let tdu = nid_word_lem nac duid_tdu (omega arith) in
    let tsbk = nid_word_lem nac duid_tsbk (omega arith) in
    let same : nid_word nac duid_tdu ≡ nid_word nac duid_tsbk =
      sym (encode_bch-top (nid_word nac duid_tdu) (omega (arith, tdu)))
      ∙ ap (λ t. t / 2 ^ 48) h
      ∙ encode_bch-top (nid_word nac duid_tsbk) (omega (arith, tsbk)) in
    omega (arith, tdu, tsbk, same)
