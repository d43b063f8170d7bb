-- ===== src/P25/Tsbk/Crc/Register.antt =====
-- The register as a shift register with feedback: a step shows in its lowest bit whether it added
-- the polynomial, and is undone but for the bit that falls out at the top.
use site_sim.Base.{
  ℕ, zero, suc, ◌+◌, ◌*◌, ◌/◌, ◌%◌, ◌^◌, ◌<◌, bit_and, bit_xor, ◌≡◌, refl, ap, ◌∙◌, arith, ◌<<◌,
  ◌>>◌, u32,
}
use site_sim.Bits.{
  bit_and_mask, bit_xor-half, bit_xor-parity, bit_xor-zero, Agree, Agree-symm, Agree-trans,
  Agree-mod, Agree-bit_xor, Agree-extend,
}
use site_sim.P25.Tsbk.Crc.{poly, crc_step}

-- Whether the polynomial is added in a step.
abbrev pub feedback : ℕ → ℕ → ℕ
feedback crc bit = (crc / 2 ^ 15 + bit) % 2

abbrev times_poly : ℕ → ℕ
times_poly zero = 0
times_poly (suc f) = poly

crc_step-feedback :
    (crc bit : ℕ) → crc_step crc bit ≡ bit_xor (crc * 2 % 2 ^ 32) (times_poly (feedback crc bit))
unfolding crc_step
crc_step-feedback crc bit = go (feedback crc bit) refl
  where
    tested : bit_and (bit_xor (u32 (crc << 1) >> 16) bit) 1 ≡ feedback crc bit
    tested = omega (
      arith,
      bit_and_mask 1 (bit_xor (u32 (crc << 1) >> 16) bit),
      bit_xor-parity (u32 (crc << 1) >> 16) bit,
    )

    go :
        (f : ℕ)
        → feedback crc bit ≡ f
        → crc_step crc bit ≡ bit_xor (crc * 2 % 2 ^ 32) (times_poly (feedback crc bit))
    go zero e = rw (e, bit_xor-zero) (ground (arith, tested))
    go (suc zero) e = rw e (ground (arith, tested))
    go (suc (suc f)) e = absurd (omega arith)

times_poly-parity : (f : ℕ) → f < 2 → times_poly f % 2 ≡ f
times_poly-parity zero h = refl
times_poly-parity (suc zero) h = refl
times_poly-parity (suc (suc f)) h = absurd (omega arith)

crc_step-parity : (crc bit : ℕ) → crc_step crc bit % 2 ≡ feedback crc bit
crc_step-parity crc bit = rw (crc_step-feedback crc bit) (
    omega (
      arith,
      bit_xor-parity (crc * 2 % 2 ^ 32) (times_poly (feedback crc bit)),
      times_poly-parity (feedback crc bit) (omega arith),
    ))

crc_step-half :
    (crc bit : ℕ)
    → crc_step crc bit / 2 ≡ bit_xor (crc % 2 ^ 31) (times_poly (feedback crc bit) / 2)
crc_step-half crc bit =
    ap (λ t. t / 2) (crc_step-feedback crc bit)
    ∙ bit_xor-half (crc * 2 % 2 ^ 32) (times_poly (feedback crc bit))
    ∙ ap (λ t. bit_xor t (times_poly (feedback crc bit) / 2)) (omega arith)

-- From two results that agree, back to the feedback and the registers before.
pub crc_step_back :
    (k c d b e : ℕ)
    → k < 31
    → Agree (suc k) (crc_step c b) (crc_step d e)
    → (feedback c b ≡ feedback d e) × Agree k c d
crc_step_back k c d b e small h = (same, registers)
  where
    same : feedback c b ≡ feedback d e
    same = omega (arith, crc_step-parity c b, crc_step-parity d e, h.0)

    half_c : crc_step c b / 2 ≡ bit_xor (c % 2 ^ 31) (times_poly (feedback d e) / 2)
    half_c = crc_step-half c b ∙ ap (λ t. bit_xor (c % 2 ^ 31) (times_poly t / 2)) same

    shifted : Agree k (c % 2 ^ 31) (d % 2 ^ 31)
    shifted =
        Agree-bit_xor k (c % 2 ^ 31) (d % 2 ^ 31) (times_poly (feedback d e) / 2)
          (rw (half_c, crc_step-half d e) at h.1)

    registers : Agree k c d
    registers =
        Agree-trans k c (c % 2 ^ 31) d
          (Agree-symm k (c % 2 ^ 31) c (Agree-mod k 31 c (omega arith)))
          (Agree-trans k (c % 2 ^ 31) (d % 2 ^ 31) d shifted (Agree-mod k 31 d (omega arith)))

-- With the same bit put in, nothing of the sixteen bits is lost.
pub crc_step-injective : (c d b : ℕ) → Agree 16 (crc_step c b) (crc_step d b) → Agree 16 c d
crc_step-injective c d b h =
    let back = crc_step_back 15 c d b b (omega arith) h in
    Agree-extend 15 c d back.1 (omega (arith, back.0))
