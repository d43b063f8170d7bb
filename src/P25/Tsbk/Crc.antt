-- ===== src/P25/Tsbk/Crc.antt =====
-- `crcCCITT` of src/p25/TSBK.cpp: the check word of a block, over its 16 header and 64 argument
-- bits, highest bit first. The register is a `uint32_t` whose bits above the sixteenth are never
-- cleared.
pub mod Register
pub mod Burst
mod Tests
use site_sim.Base.{
  ℕ, zero, suc, ◌+◌, ◌*◌, ◌/◌, ◌%◌, ◌^◌, ◌<◌, arith, bit_and, bit_xor, ◌==◌, if◌then◌else◌, u16,
  u32, ◌<<◌, ◌>>◌,
}

abbrev pub poly : ℕ
poly = 0x1021

-- The body of both loops, for one bit.
pub crc_step : ℕ → ℕ → ℕ
crc_step crc bit =
    let shifted = u32 (crc << 1) in
    if bit_and (bit_xor (shifted >> 16) bit) 1 == 0 then shifted else bit_xor shifted poly

-- A loop `for (int i = n - 1; i >= 0; i--)` over the bits of a word.
pub crc_loop : ℕ → ℕ → ℕ → ℕ
crc_loop zero word crc = crc
crc_loop (suc i) word crc = crc_loop i word (crc_step crc (bit_and (word >> i) 1))

-- `crcCCITT`
pub crc_ccitt : ℕ → ℕ → ℕ
crc_ccitt high low =
    let crc = crc_loop 64 low (crc_loop 16 high 0) in u16 (bit_xor (bit_and crc 0xffff) 0xffff)

pub crc_ccitt-lt : (high low : ℕ) → crc_ccitt high low < 2 ^ 16
unfolding crc_ccitt
crc_ccitt-lt high low = omega arith
