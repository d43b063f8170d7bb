-- ===== src/P25/Frame/Dibits.antt =====
-- Words and bytes as dibits, highest first, and back.
use site_sim.Base.{
  ℕ, zero, suc, ◌+◌, ◌-◌, ◌*◌, ◌^◌, ◌≤◌, ◌<◌, bit_and, ◌≡◌, refl, ap, ap₂, ◌∙◌, List, [], ◌∷◌,
  length, length-drop, All, arith, IsDibit, IsByte, word_bytes, spell_bytes, spell_bytes-word, ◌>>◌,
}
use site_sim.Bits.{bit_and_mask}
use site_sim.P25.Frame.{bytes_to_dibits, uint64_to_dibits}

-- Four dibits to a byte; what does not fill a byte is dropped.
unfoldable pub to_bytes : List ℕ → List ℕ
to_bytes (a ∷ b ∷ c ∷ d ∷ ds) = (a * 64 + b * 16 + c * 4 + d) ∷ to_bytes ds
to_bytes _ = []

-- The number that dibits spell, behind what was read before.
unfoldable pub spell : ℕ → List ℕ → ℕ
spell acc [] = acc
spell acc (d ∷ ds) = spell (acc * 4 + d) ds

pub bytes_to_dibits-IsDibit : (bs : List ℕ) → All IsDibit (bytes_to_dibits bs)
unfolding bytes_to_dibits
bytes_to_dibits-IsDibit [] = tt
bytes_to_dibits-IsDibit (b ∷ bs) =
    rw
      (
        bit_and_mask 2 (b >> 6),
        bit_and_mask 2 (b >> 4),
        bit_and_mask 2 (b >> 2),
        bit_and_mask 2 (b >> 0),
      )
      (omega arith, (omega arith, (omega arith, (omega arith, bytes_to_dibits-IsDibit bs))))

pub length-bytes_to_dibits : (bs : List ℕ) → length (bytes_to_dibits bs) ≡ 4 * length bs
unfolding bytes_to_dibits
length-bytes_to_dibits [] = refl
length-bytes_to_dibits (b ∷ bs) = omega (arith, length-bytes_to_dibits bs)

pub to_bytes-dibits : (bs : List ℕ) → All IsByte bs → to_bytes (bytes_to_dibits bs) ≡ bs
unfolding bytes_to_dibits to_bytes
to_bytes-dibits [] h = refl
to_bytes-dibits (b ∷ bs) h =
    ap₂ ◌∷◌
      (omega (
        arith,
        bit_and_mask 2 (b >> 6),
        bit_and_mask 2 (b >> 4),
        bit_and_mask 2 (b >> 2),
        bit_and_mask 2 (b >> 0),
      ))
      (to_bytes-dibits bs h.1)

spell-bytes_to_dibits :
    (bs : List ℕ) (acc : ℕ) → All IsByte bs → spell acc (bytes_to_dibits bs) ≡ spell_bytes acc bs
unfolding bytes_to_dibits spell
spell-bytes_to_dibits [] acc h = refl
spell-bytes_to_dibits (b ∷ bs) acc h =
    ap (λ t. spell t (bytes_to_dibits bs)) whole ∙ spell-bytes_to_dibits bs (acc * 256 + b) h.1
  where
    whole :
        (((acc * 4 + bit_and (b >> 6) 0x03) * 4 + bit_and (b >> 4) 0x03) * 4
              + bit_and (b >> 2) 0x03)
            * 4
          + bit_and (b >> 0) 0x03
        ≡ acc * 256 + b
    whole = omega (
      arith,
      h.0,
      bit_and_mask 2 (b >> 6),
      bit_and_mask 2 (b >> 4),
      bit_and_mask 2 (b >> 2),
      bit_and_mask 2 (b >> 0),
    )

-- A word of 64 bits is spelled by its 32 dibits.
pub spell-uint64 : (v : ℕ) → v < 2 ^ 64 → spell 0 (uint64_to_dibits v 32) ≡ v
unfolding uint64_to_dibits word_bytes
spell-uint64 v h = spell-bytes_to_dibits (word_bytes 8 v) 0 (omega arith) ∙ spell_bytes-word v h

length-word_bytes : (n v : ℕ) → length (word_bytes n v) ≡ n
unfolding word_bytes
length-word_bytes zero v = refl
length-word_bytes (suc n) v = ap suc (length-word_bytes n v)

pub length-uint64_to_dibits : (v n : ℕ) → n ≤ 32 → length (uint64_to_dibits v n) ≡ n
unfolding uint64_to_dibits
length-uint64_to_dibits v n h = omega (
  arith,
  length-drop (32 - n) (bytes_to_dibits (word_bytes 8 v)),
  length-bytes_to_dibits (word_bytes 8 v),
  length-word_bytes 8 v,
)
