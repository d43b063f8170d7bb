-- ===== src/Base/Search.antt =====
-- Checking a property of every word of a small width by evaluation.
use Prim.Native.Nat.{ℕ, zero, suc, ◌+◌, ◌-◌, ◌*◌, ◌^◌, ◌<◌}
use mathlib.Core.Path.{◌≡◌}
use mathlib.Core.Bool.{Bool, true, ◌&&◌}
use native.Mathlib.Nat.{pow-suc}
use native.Mathlib.Decide.{dec_lt}
use native.Mathlib.Omega.{arith}
use site_sim.Base.Words.{double_pow}

pub and-true : (a b : Bool) → (a && b) ≡ true → (a ≡ true) × (b ≡ true)
and-true a b h = ground arith

-- The words `hi * 2 ^ k + lo` for every `lo` of `k` bits, as a tree of depth `k`.
unfoldable pub all_words : ℕ → ℕ → (ℕ → Bool) → Bool
all_words zero hi p = p hi
all_words (suc k) hi p = all_words k (hi * 2) p && all_words k (hi * 2 + 1) p

all_words_fields :
    (k hi lo : ℕ) (p : ℕ → Bool) → all_words k hi p ≡ true → lo < 2 ^ k → p (hi * 2 ^ k + lo) ≡ true
unfolding all_words
all_words_fields zero hi lo p h fits = let e : hi * 1 + lo ≡ hi = omega arith in rw e h
all_words_fields (suc k) hi lo p h fits =
    let both = and-true (all_words k (hi * 2) p) (all_words k (hi * 2 + 1) p) h in
    elim (dec_lt lo (2 ^ k)) [
      | yes low ↦
          let e : hi * 2 ^ suc k + lo ≡ hi * 2 * 2 ^ k + lo = omega (arith, double_pow hi k) in
          rw e (all_words_fields k (hi * 2) lo p both.0 low)
      | no high ↦
          let e : hi * 2 ^ suc k + lo ≡ (hi * 2 + 1) * 2 ^ k + (lo - 2 ^ k) =
            omega (arith, double_pow hi k) in
          rw e (all_words_fields k (hi * 2 + 1) (lo - 2 ^ k) p both.1 (omega (arith, pow-suc 2 k)))
    ]

pub all_words_sound : (k x : ℕ) (p : ℕ → Bool) → all_words k 0 p ≡ true → x < 2 ^ k → p x ≡ true
all_words_sound k x p h fits =
    let e : 0 * 2 ^ k + x ≡ x = omega arith in rw e at (all_words_fields k 0 x p h fits)
