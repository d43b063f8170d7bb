-- ===== src/Bits/Low.antt =====
-- The lowest bits of a word, one at a time.
use native.Mathlib.Nat.{pow-suc, one-le-pow, mul-add-mod_self_left, mod-eq_of_lt}
use site_sim.Base.{
  ℕ, zero, suc, ◌+◌, ◌*◌, ◌/◌, ◌%◌, ◌^◌, ◌≤◌, ◌<◌, ◌≡◌, refl, ap, ◌∙◌, arith, bit_xor,
}
use site_sim.Bits.Fields.{half-pow}
use site_sim.Bits.Xor.{bit_xor-half, bit_xor-parity}

mod-double : (x m : ℕ) → 0 < m → x % (2 * m) ≡ x / 2 % m * 2 + x % 2
mod-double x m h =
    ap (λ t. t % (2 * m)) split
    ∙ mul-add-mod_self_left (2 * m) (x / 2 / m) (x / 2 % m * 2 + x % 2)
    ∙ mod-eq_of_lt (omega arith)
  where
    split : x ≡ 2 * m * (x / 2 / m) + (x / 2 % m * 2 + x % 2)
    split = omega arith

pub mod-pow-suc : (x k : ℕ) → x % 2 ^ suc k ≡ x / 2 % 2 ^ k * 2 + x % 2
mod-pow-suc x k =
    ap (λ t. x % t) (omega (arith, pow-suc 2 k))
    ∙ mod-double x (2 ^ k) (one-le-pow k 2 (omega arith))

-- Two words agree in their lowest `k` bits.
abbrev pub Agree : ℕ → ℕ → ℕ → Type 0
Agree zero x y = Unit {0}
Agree (suc k) x y = (x % 2 ≡ y % 2) × Agree k (x / 2) (y / 2)

pub Agree-refl : (k x : ℕ) → Agree k x x
Agree-refl zero x = tt
Agree-refl (suc k) x = (refl, Agree-refl k (x / 2))

pub Agree-symm : (k x y : ℕ) → Agree k x y → Agree k y x
Agree-symm zero x y h = tt
Agree-symm (suc k) x y h = (omega arith, Agree-symm k (x / 2) (y / 2) h.1)

pub Agree-trans : (k x y z : ℕ) → Agree k x y → Agree k y z → Agree k x z
Agree-trans zero x y z h j = tt
Agree-trans (suc k) x y z h j = (omega arith, Agree-trans k (x / 2) (y / 2) (z / 2) h.1 j.1)

pub Agree-of_mod : (k x y : ℕ) → x % 2 ^ k ≡ y % 2 ^ k → Agree k x y
Agree-of_mod zero x y h = tt
Agree-of_mod (suc k) x y h = (
  omega (arith, mod-pow-suc x k, mod-pow-suc y k),
  Agree-of_mod k (x / 2) (y / 2) (omega (arith, mod-pow-suc x k, mod-pow-suc y k)),
)

pub Agree-mod : (k j x : ℕ) → k ≤ j → Agree k (x % 2 ^ j) x
Agree-mod zero j x h = tt
Agree-mod (suc k) zero x h = absurd (omega arith)
Agree-mod (suc k) (suc j) x h =
    let half : x % 2 ^ suc j / 2 ≡ x / 2 % 2 ^ j = omega (arith, mod-pow-suc x j) in
    (omega (arith, mod-pow-suc x j), rw half (Agree-mod k j (x / 2) (omega arith)))

-- What the same word is added to agrees if the sums do.
pub Agree-bit_xor : (k x y z : ℕ) → Agree k (bit_xor x z) (bit_xor y z) → Agree k x y
Agree-bit_xor zero x y z h = tt
Agree-bit_xor (suc k) x y z h =
    let halves : Agree k (bit_xor (x / 2) (z / 2)) (bit_xor (y / 2) (z / 2)) =
      rw (bit_xor-half x z, bit_xor-half y z) at h.1 in
    (
      omega (arith, bit_xor-parity x z, bit_xor-parity y z, h.0),
      Agree-bit_xor k (x / 2) (y / 2) (z / 2) halves,
    )

-- One more bit at the top.
pub Agree-extend : (k x y : ℕ) → Agree k x y → x / 2 ^ k % 2 ≡ y / 2 ^ k % 2 → Agree (suc k) x y
Agree-extend zero x y h e = (omega arith, tt)
Agree-extend (suc k) x y h e =
    (h.0, Agree-extend k (x / 2) (y / 2) h.1 (rw (half-pow x k, half-pow y k) e))
