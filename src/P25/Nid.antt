-- ===== src/P25/Nid.antt =====
-- src/p25/NID.hpp: the DUID constants and the encoder of the 64-bit network identifier.
pub mod Linear
pub mod Weight
pub mod Distance
mod Tests
use site_sim.Base.{
  ℕ, ◌+◌, ◌*◌, ◌/◌, ◌^◌, bit_and, bit_or, bit_xor, List, [], ◌∷◌, ◌==◌, if◌then◌else◌, ◌>>◌, ◌<<◌,
  u16,
}

abbrev pub duid_tdu : ℕ
duid_tdu = 0x03

abbrev pub duid_tsbk : ℕ
duid_tsbk = 0x07

-- `kBchMatrix`
abbrev pub bch_matrix : List ℕ
bch_matrix =
    0x8000cd930bdd3b2a ∷ 0x4000ab5a8e33a6be ∷ 0x2000983e4cc4e874 ∷ 0x10004c1f2662743a
    ∷ 0x0800eb9c98ec0136 ∷ 0x0400b85d47ab3bb0 ∷ 0x02005c2ea3d59dd8 ∷ 0x01002e1751eaceec
    ∷ 0x0080170ba8f56776 ∷ 0x0040c616dfa78890 ∷ 0x0020630b6fd3c448 ∷ 0x00103185b7e9e224
    ∷ 0x000818c2dbf4f112 ∷ 0x0004c1f2662743a2 ∷ 0x0002ad6a38ce9afb ∷ 0x00019b2617ba7657 ∷ []

-- The loop of `encodeBCH` at index `i`, over the rows that are left.
pub encode_rows : List ℕ → ℕ → ℕ → ℕ → ℕ
encode_rows [] i word codeword = codeword
encode_rows (row ∷ rows) i word codeword =
    encode_rows rows (i + 1) word
      (if bit_and word (0x8000 >> i) == 0 then codeword else bit_xor codeword row)

-- `encodeBCH`
pub encode_bch : ℕ → ℕ
unfolding encode_rows
encode_bch word = encode_rows bch_matrix 0 word 0

-- The argument that `BuildFrame` and `BuildTDUFrame` pass: `(uint16_t(nac) << 4) | duid`, cut to
-- the 16 bits of the parameter.
pub nid_word : ℕ → ℕ → ℕ
nid_word nac duid = u16 (bit_or (nac << 4) duid)
