-- ===== src/P25/Tsbk/Crc/Burst.antt =====
-- What the check word detects: messages as lists of bits, and the errors in them.
use native.Mathlib.Nat.{mod-eq_of_lt}
use site_sim.Base.{
  ℕ, zero, suc, ◌+◌, ◌/◌, ◌%◌, ◌^◌, ◌≤◌, ◌<◌, bit_xor, ◌≡◌, ◌≢◌, refl, sym, ap, ap₂, ◌∙◌, arith,
  List, [], ◌∷◌, ◌++◌, length, All, All-append, All-append_split, ◌-◌, get_or, drop, subst, u16,
}
use site_sim.Bits.{
  bit_and_mask, bit_xor_assoc, bit_xor_self, bit_xor-zero, bit_xor-lt, Agree, Agree-of_mod,
}
use site_sim.P25.Tsbk.Crc.{crc_step, crc_loop, crc_ccitt}
use site_sim.P25.Tsbk.Crc.Register.{feedback, crc_step_back, crc_step-injective}

abbrev IsBit : ℕ → Type 0
IsBit b = b < 2

-- The register after a list of bits.
pub shift_in : List ℕ → ℕ → ℕ
shift_in [] crc = crc
shift_in (b ∷ bs) crc = shift_in bs (crc_step crc b)

shift_in-append :
    (xs ys : List ℕ) (crc : ℕ) → shift_in (xs ++ ys) crc ≡ shift_in ys (shift_in xs crc)
unfolding shift_in
shift_in-append [] ys crc = refl
shift_in-append (x ∷ xs) ys crc = shift_in-append xs ys (crc_step crc x)

abbrev feedbacks : List ℕ → ℕ → List ℕ
feedbacks [] crc = []
feedbacks (b ∷ bs) crc = feedback crc b ∷ feedbacks bs (crc_step crc b)

-- The feedback of the last bits can be read off the register.
feedbacks_back :
    (xs ys : List ℕ) (j c d : ℕ)
    → length xs ≡ length ys
    → length xs + j ≤ 16
    → Agree (length xs + j) (shift_in xs c) (shift_in ys d)
    → (feedbacks xs c ≡ feedbacks ys d) × Agree j c d
unfolding shift_in
feedbacks_back [] [] j c d e h a = (refl, subst (λ t. Agree t c d) (omega arith) a)
feedbacks_back [] (y ∷ ys) j c d e h a = absurd (omega arith)
feedbacks_back (x ∷ xs) [] j c d e h a = absurd (omega arith)
feedbacks_back (x ∷ xs) (y ∷ ys) j c d e h a =
    let later =
      feedbacks_back xs ys (suc j) (crc_step c x) (crc_step d y) (omega arith) (omega arith) (
        subst (λ t. Agree t (shift_in xs (crc_step c x)) (shift_in ys (crc_step d y))) (omega arith)
          a) in
    let now = crc_step_back j c d x y (omega arith) later.1 in (ap₂ ◌∷◌ now.0 later.0, now.1)

feedbacks-injective :
    (xs ys : List ℕ) (c : ℕ)
    → length xs ≡ length ys
    → All IsBit xs
    → All IsBit ys
    → feedbacks xs c ≡ feedbacks ys c
    → xs ≡ ys
feedbacks-injective [] [] c e hx hy h = refl
feedbacks-injective [] (y ∷ ys) c e hx hy h = absurd (omega arith)
feedbacks-injective (x ∷ xs) [] c e hx hy h = absurd (omega arith)
feedbacks-injective (x ∷ xs) (y ∷ ys) c e hx hy h =
    let heads : feedback c x ≡ feedback c y = ap (λ l. get_or l 0 0) h in
    let same : x ≡ y = omega (arith, hx.0, hy.0) in
    let tails : feedbacks xs (crc_step c x) ≡ feedbacks ys (crc_step c y) = ap (drop 1) h in
    ap₂ ◌∷◌ same (
      feedbacks-injective xs ys (crc_step c x) (omega arith) hx.1 hy.1
        (tails ∙ ap (λ t. feedbacks ys (crc_step c t)) (sym same)))

shift_in_suffix : (zs : List ℕ) (c d : ℕ) → Agree 16 (shift_in zs c) (shift_in zs d) → Agree 16 c d
unfolding shift_in
shift_in_suffix [] c d h = h
shift_in_suffix (z ∷ zs) c d h =
    crc_step-injective c d z (shift_in_suffix zs (crc_step c z) (crc_step d z) h)

-- Two lists of bits that differ in one stretch of at most sixteen leave different registers.
shift_in_burst :
    (ps xs ys zs : List ℕ) (crc : ℕ)
    → length xs ≡ length ys
    → length xs ≤ 16
    → All IsBit xs
    → All IsBit ys
    → Agree 16 (shift_in (ps ++ (xs ++ zs)) crc) (shift_in (ps ++ (ys ++ zs)) crc)
    → xs ≡ ys
shift_in_burst ps xs ys zs crc e h hx hy a =
    feedbacks-injective xs ys c e hx hy
      (feedbacks_back xs ys (16 - length xs) c c e (omega arith)
        (subst (λ t. Agree t (shift_in xs c) (shift_in ys c)) covers middle)).0
  where
    c : ℕ
    c = shift_in ps crc

    covers : 16 ≡ length xs + (16 - length xs)
    covers = omega arith

    parts : (us : List ℕ) → shift_in (ps ++ (us ++ zs)) crc ≡ shift_in zs (shift_in us c)
    parts us = shift_in-append ps (us ++ zs) crc ∙ shift_in-append us zs c

    middle : Agree 16 (shift_in xs c) (shift_in ys c)
    middle = shift_in_suffix zs (shift_in xs c) (shift_in ys c) (
        subst (λ t. Agree 16 t (shift_in zs (shift_in ys c))) (parts xs)
          (subst (λ t. Agree 16 (shift_in (ps ++ (xs ++ zs)) crc) t) (parts ys) a))

-- The lowest `n` bits of a word, highest first, and the 80 bits that the check word covers.
abbrev pub bits : ℕ → ℕ → List ℕ
bits zero x = []
bits (suc n) x = x / 2 ^ n % 2 ∷ bits n x

unfoldable pub message_bits : ℕ → ℕ → List ℕ
message_bits high low = bits 16 high ++ bits 64 low

bits-IsBit : (n x : ℕ) → All IsBit (bits n x)
bits-IsBit zero x = tt
bits-IsBit (suc n) x = (omega arith, bits-IsBit n x)

message_bits-IsBit : (high low : ℕ) → All IsBit (message_bits high low)
unfolding message_bits
message_bits-IsBit high low =
    All-append IsBit (bits 16 high) (bits 64 low) (bits-IsBit 16 high) (bits-IsBit 64 low)

crc_loop-shift_in : (n x crc : ℕ) → crc_loop n x crc ≡ shift_in (bits n x) crc
unfolding crc_loop shift_in
crc_loop-shift_in zero x crc = refl
crc_loop-shift_in (suc n) x crc =
    rw (bit_and_mask 1 (x / 2 ^ n)) (crc_loop-shift_in n x (crc_step crc (x / 2 ^ n % 2)))

abbrev register : ℕ → ℕ → ℕ
register high low = shift_in (message_bits high low) 0

crc_ccitt-register :
    (high low : ℕ) → crc_ccitt high low ≡ u16 (bit_xor (register high low % 2 ^ 16) 0xffff)
unfolding crc_ccitt message_bits
crc_ccitt-register high low =
    ap (λ t. u16 (bit_xor t 0xffff))
      (bit_and_mask 16 (crc_loop 64 low (crc_loop 16 high 0))
        ∙ ap (λ t. t % 2 ^ 16)
            (crc_loop-shift_in 64 low (crc_loop 16 high 0)
              ∙ ap (shift_in (bits 64 low)) (crc_loop-shift_in 16 high 0)
              ∙ sym (shift_in-append (bits 16 high) (bits 64 low) 0)))

complement_twice : (a : ℕ) → a < 2 ^ 16 → bit_xor (u16 (bit_xor a 0xffff)) 0xffff ≡ a
complement_twice a h =
    ap (λ t. bit_xor t 0xffff) (mod-eq_of_lt (bit_xor-lt 16 a 0xffff h (omega arith)))
    ∙ bit_xor_assoc a 0xffff 0xffff
    ∙ ap (bit_xor a) (bit_xor_self 0xffff)
    ∙ bit_xor-zero a

same_register :
    (x y : ℕ) → u16 (bit_xor (x % 2 ^ 16) 0xffff) ≡ u16 (bit_xor (y % 2 ^ 16) 0xffff) → Agree 16 x y
same_register x y h = Agree-of_mod 16 x y (
    sym (complement_twice (x % 2 ^ 16) (omega arith))
    ∙ ap (λ t. bit_xor t 0xffff) h
    ∙ complement_twice (y % 2 ^ 16) (omega arith))

-- Two blocks whose 80 header and argument bits differ, and only within one stretch of at most
-- sixteen bits, have different check words.
pub crc_ccitt_burst :
    (high low high' low' : ℕ) (before xs ys after : List ℕ)
    → message_bits high low ≡ before ++ (xs ++ after)
    → message_bits high' low' ≡ before ++ (ys ++ after)
    → length xs ≡ length ys
    → length xs ≤ 16
    → xs ≢ ys
    → crc_ccitt high low ≢ crc_ccitt high' low'
crc_ccitt_burst high low high' low' before xs ys after e e' len short differ same = differ (
    shift_in_burst before xs ys after 0 len short (stretch xs high low e) (stretch ys high' low' e')
      (subst (λ t. Agree 16 t right) left_is agree))
  where
    right : ℕ
    right = shift_in (before ++ (ys ++ after)) 0

    stretch : (us : List ℕ) (h l : ℕ) → message_bits h l ≡ before ++ (us ++ after) → All IsBit us
    stretch us h l p =
        (All-append_split IsBit us after
          (All-append_split IsBit before (us ++ after)
            (subst (All IsBit) p (message_bits-IsBit h l))).1).0

    left_is : register high low ≡ shift_in (before ++ (xs ++ after)) 0
    left_is = ap (λ t. shift_in t 0) e

    agree : Agree 16 (register high low) right
    agree = subst (Agree 16 (register high low)) (ap (λ t. shift_in t 0) e') (
        same_register (register high low) (register high' low')
          (sym (crc_ccitt-register high low) ∙ same ∙ crc_ccitt-register high' low'))
