-- ===== src/Bits/Fields.antt =====
-- `|` of fields that do not overlap is a sum, and `&` with a mask of low bits is a remainder, at
-- every width; `&` with one bit says whether that bit is set.
use native.Mathlib.Nat.{pow-suc, one-le-pow, div-div-eq-div-mul, div-add-mod}
use site_sim.Base.{
  ℕ, zero, suc, ◌+◌, ◌-◌, ◌*◌, ◌/◌, ◌%◌, ◌^◌, ◌≤◌, ◌<◌, bit_and, bit_or, ◌≡◌, refl, sym, ap, ◌∙◌,
  arith, ◌<<◌, double_pow,
}
use site_sim.Bits.Digits.{bit_or_step, bit_and_step}

bit_or-zero_below : (n a : ℕ) → a ≤ n → bit_or a 0 ≡ a
bit_or-zero_below n zero h = refl
bit_or-zero_below zero (suc a) h = absurd (omega arith)
bit_or-zero_below (suc n) (suc a) h =
    omega (arith, bit_or_step (suc a) 0, bit_or-zero_below n (suc a / 2) (omega arith))

bit_and-zero_below : (n a : ℕ) → a ≤ n → bit_and a 0 ≡ 0
bit_and-zero_below n zero h = refl
bit_and-zero_below zero (suc a) h = absurd (omega arith)
bit_and-zero_below (suc n) (suc a) h =
    omega (arith, bit_and_step (suc a) 0, bit_and-zero_below n (suc a / 2) (omega arith))

-- A field above `k` bits joined to one within them.
pub bit_or_fields : (k q r : ℕ) → r < 2 ^ k → bit_or (q << k) r ≡ q * 2 ^ k + r
bit_or_fields zero q zero fits = omega (arith, bit_or-zero_below (q * 1) (q * 1))
bit_or_fields zero q (suc r) fits = absurd (omega arith)
bit_or_fields (suc k) q r fits = ground (
  arith,
  bit_or_step (q * 2 ^ suc k) r,
  double_pow q k,
  bit_or_fields k q (r / 2) (omega (arith, pow-suc 2 k)),
)

bit_and_pow_fields : (k q r : ℕ) → r < 2 ^ k → bit_and (q * 2 ^ k + r) (2 ^ k - 1) ≡ r
bit_and_pow_fields zero q r fits = omega (arith, bit_and-zero_below (q * 1 + r) (q * 1 + r))
bit_and_pow_fields (suc k) q r fits = ground (
  arith,
  bit_and_step (q * 2 ^ suc k + r) (2 ^ suc k - 1),
  double_pow q k,
  pow-suc 2 k,
  one-le-pow k 2,
  bit_and_pow_fields k q (r / 2) (omega (arith, pow-suc 2 k)),
)

-- A mask of `k` ones.
pub bit_and_mask : (k a : ℕ) → bit_and a (2 ^ k - 1) ≡ a % 2 ^ k
bit_and_mask k a = ground (arith, one-le-pow k 2, bit_and_pow_fields k (a / 2 ^ k) (a % 2 ^ k))

pub half-pow : (a k : ℕ) → a / 2 / 2 ^ k ≡ a / 2 ^ suc k
half-pow a k = div-div-eq-div-mul a 2 (2 ^ k) ∙ ap (λ t. a / t) (omega (arith, pow-suc 2 k))

-- A single bit.
pub bit_and_pow : (k a : ℕ) → bit_and a (2 ^ k) ≡ a / 2 ^ k % 2 * 2 ^ k
bit_and_pow zero a = omega (arith, bit_and_step a 1, bit_and-zero_below (a / 2) (a / 2))
bit_and_pow (suc k) a =
    let halves : 2 ^ suc k / 2 ≡ 2 ^ k = omega (arith, pow-suc 2 k) in
    let ih : bit_and (a / 2) (2 ^ k) ≡ a / 2 ^ suc k % 2 * 2 ^ k =
      rw (← half-pow a k) (bit_and_pow k (a / 2)) in
    rw (bit_and_step a (2 ^ suc k), halves)
      (omega (arith, ih, pow-suc 2 k, double_pow (a / 2 ^ suc k % 2) k))

-- The same of a word whose lowest `k` bits are zeros.
pub bit_or_above : (k x r : ℕ) → x % 2 ^ k ≡ 0 → r < 2 ^ k → bit_or x r ≡ x + r
bit_or_above k x r low fits =
    let whole : x / 2 ^ k * 2 ^ k ≡ x = omega (arith, div-add-mod x (2 ^ k)) in
    ap (λ t. bit_or t r) (sym whole) ∙ bit_or_fields k (x / 2 ^ k) r fits ∙ ap (λ t. t + r) whole
