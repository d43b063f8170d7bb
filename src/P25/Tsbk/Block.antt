-- ===== src/P25/Tsbk/Block.antt =====
-- `buildTSBK` of src/p25/TSBK.cpp: twelve bytes from a header, 64 argument bits and the check word.
pub mod Parse
mod Tests
use site_sim.Base.{
  ℕ, ◌+◌, ◌*◌, ◌/◌, ◌%◌, ◌^◌, bit_and, bit_or, List, [], ◌∷◌, ◌++◌, Bool, if◌then◌else◌, u8, u16,
  ◌<<◌, ◌>>◌, word_bytes,
}
use site_sim.P25.Tsbk.Crc.{crc_ccitt}

-- `high`: the last-block flag, the protected flag (never set), the opcode and the manufacturer.
pub block_header : Bool → ℕ → ℕ → ℕ
block_header last_block opcode mfid =
    let lb : ℕ = if last_block then 1 else 0 in
    u16 (bit_or (bit_or (bit_or (lb << 15) (0 << 14)) (u16 opcode << 8)) (u16 mfid))

-- `buildTSBK`
unfoldable pub build_tsbk : Bool → ℕ → ℕ → ℕ → List ℕ
build_tsbk last_block opcode mfid args =
    let high = block_header last_block opcode mfid in
    let crc = crc_ccitt high args in
    u8 (high >> 8) ∷ u8 (bit_and high 0xff) ∷ word_bytes 8 args
    ++ u8 (crc >> 8) ∷ u8 (bit_and crc 0xff) ∷ []
