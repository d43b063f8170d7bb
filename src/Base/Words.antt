-- ===== src/Base/Words.antt =====
-- Unsigned machine words as native numbers: casts to the fixed widths, and shifts. A cast is a
-- remainder, a left shift a product and a right shift a quotient.
use Prim.Native.Nat.{ℕ, zero, suc, ◌+◌, ◌*◌, ◌/◌, ◌%◌, ◌^◌, ◌<◌}
use mathlib.Core.Path.{◌≡◌, ap}
use mathlib.Core.List.{List, [], ◌∷◌}
use native.Mathlib.Nat.{pow-suc}
use native.Mathlib.Omega.{arith}

abbrev pub u8 : ℕ → ℕ
u8 n = n % 2 ^ 8

abbrev pub u16 : ℕ → ℕ
u16 n = n % 2 ^ 16

abbrev pub u32 : ℕ → ℕ
u32 n = n % 2 ^ 32

abbrev pub u64 : ℕ → ℕ
u64 n = n % 2 ^ 64

infixl 75 ◌<<◌ ◌>>◌
abbrev pub ◌<<◌ : ℕ → ℕ → ℕ
x << k = x * 2 ^ k

abbrev pub ◌>>◌ : ℕ → ℕ → ℕ
x >> k = x / 2 ^ k

-- A left shift of a `uint64_t`.
abbrev pub shl64 : ℕ → ℕ → ℕ
shl64 x k = u64 (x << k)

-- The lowest `n` bytes of a word, highest first: `uint8_t(v >> (8 * i))` for each `i` below `n`, from
-- the top. `buildTSBK` and `uint64ToDibits` write the eight bytes of a `uint64_t` so.
unfoldable pub word_bytes : ℕ → ℕ → List ℕ
word_bytes zero v = []
word_bytes (suc n) v = u8 (v >> (8 * n)) ∷ word_bytes n v

-- The number that bytes spell, behind what was read before.
abbrev pub spell_bytes : ℕ → List ℕ → ℕ
spell_bytes acc [] = acc
spell_bytes acc (b ∷ bs) = spell_bytes (acc * 256 + b) bs

pub spell_bytes-word : (v : ℕ) → v < 2 ^ 64 → spell_bytes 0 (word_bytes 8 v) ≡ v
unfolding word_bytes
spell_bytes-word v h = omega arith

pub double_pow : (q k : ℕ) → q * 2 ^ suc k ≡ 2 * (q * 2 ^ k)
double_pow q k = omega (arith, ap (λ (t : ℕ). q * t) (pow-suc 2 k))

-- The values of a symbol of two bits, and of a byte.
abbrev pub IsDibit : ℕ → Type 0
IsDibit d = d < 4

abbrev pub IsByte : ℕ → Type 0
IsByte b = b < 256
