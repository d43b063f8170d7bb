-- ===== src/Tx/Ring/Window.antt =====
-- The bytes between two places of the ring.
use site_sim.Base.{
  ℕ, zero, suc, ◌+◌, ◌%◌, ◌≤◌, ◌<◌, ◌≡◌, ◌≢◌, refl, sym, ap, ap₂, ◌∙◌, List, [], ◌∷◌, ◌++◌, length,
  arith,
}
use mathlib.Core.List.{append-nil, append_assoc}
use site_sim.Tx.Ring.{ring_size, update, write_loop, read_loop}

-- The place `i` bytes behind `r`.
abbrev pub place : ℕ → ℕ → ℕ
place r i = (r + i) % ring_size

-- The `n` bytes from `i` behind `r` on.
unfoldable pub window : (ℕ → ℕ) → ℕ → ℕ → ℕ → List ℕ
window cell r i zero = []
window cell r i (suc n) = cell (place r i) ∷ window cell r (suc i) n

pub window_nil : (cell : ℕ → ℕ) (r i n : ℕ) → n ≡ 0 → window cell r i n ≡ []
unfolding window
window_nil cell r i n h = ap (window cell r i) h

pub length-window : (cell : ℕ → ℕ) (r i n : ℕ) → length (window cell r i n) ≡ n
unfolding window
length-window cell r i zero = refl
length-window cell r i (suc n) = ap suc (length-window cell r (suc i) n)

pub window_split :
    (cell : ℕ → ℕ) (r i n m : ℕ)
    → window cell r i (n + m) ≡ window cell r i n ++ window cell r (i + n) m
unfolding window
window_split cell r i zero m = ap₂ (window cell r) (omega arith) (omega arith)
window_split cell r i (suc n) m =
    let shift : window cell r (suc i + n) m ≡ window cell r (i + suc n) m =
      ap (λ t. window cell r t m) (omega arith) in
    let count : suc n + m ≡ suc (n + m) = omega arith in
    ap (window cell r i) count
    ∙ ap (◌∷◌ (cell (place r i)))
        (window_split cell r (suc i) n m ∙ ap (◌++◌ (window cell r (suc i) n)) shift)

update_ne : (cell : ℕ → ℕ) (i v j : ℕ) → i ≢ j → update cell i v j ≡ cell j
update_ne cell i v j h = ground arith

pub update_self : (cell : ℕ → ℕ) (i v : ℕ) → update cell i v i ≡ v
update_self cell i v = ground arith

-- A write less than a round ahead leaves the window alone.
pub window-update :
    (cell : ℕ → ℕ) (r i n j v : ℕ)
    → i + n ≤ j
    → j < ring_size
    → window (update cell (place r j) v) r i n ≡ window cell r i n
unfolding window
window-update cell r i zero j v h k = refl
window-update cell r i (suc n) j v h k =
    ap₂ ◌∷◌ (update_ne cell (place r j) v (place r i) (omega arith))
      (window-update cell r (suc i) n j v (omega arith) k)

pub window-shift :
    (cell : ℕ → ℕ) (r k i n : ℕ) → window cell (place r k) i n ≡ window cell r (k + i) n
unfolding window
window-shift cell r k i zero = refl
window-shift cell r k i (suc n) =
    let next : window cell r (k + suc i) n ≡ window cell r (suc (k + i)) n =
      ap (λ t. window cell r t n) (omega arith) in
    ap₂ ◌∷◌ (ap cell (omega arith)) (window-shift cell r k (suc i) n ∙ next)

window-write :
    (cell : ℕ → ℕ) (r n x : ℕ)
    → n < ring_size
    → window (update cell (place r n) x) r 0 (n + 1) ≡ window cell r 0 n ++ x ∷ []
unfolding window
window-write cell r n x h =
    let cell' = update cell (place r n) x in
    let last : window cell' r (0 + n) 1 ≡ x ∷ [] =
      ap (λ t. window cell' r t 1) (omega arith)
      ∙ ap (λ t. t ∷ []) (update_self cell (place r n) x) in
    window_split cell' r 0 n 1 ∙ ap₂ ◌++◌ (window-update cell r 0 n n x (omega arith) h) last

pub write_loop-window :
    (xs : List ℕ) (cell : ℕ → ℕ) (r n : ℕ)
    → n + length xs < ring_size
    → (window (write_loop cell (place r n) xs).0 r 0 (n + length xs) ≡ window cell r 0 n ++ xs)
      × ((write_loop cell (place r n) xs).1 ≡ place r (n + length xs))
unfolding write_loop
write_loop-window [] cell r n h =
    let e : n + 0 ≡ n = omega arith in
    (ap (window cell r 0) e ∙ sym (append-nil (window cell r 0 n)), sym (ap (place r) e))
write_loop-window (x ∷ xs) cell r n h =
    let cell' = update cell (place r n) x in
    let next : place r (n + 1) ≡ (place r n + 1) % ring_size = omega arith in
    let count : n + 1 + length xs ≡ n + length (x ∷ xs) = omega arith in
    let (kept, ends) = write_loop-window xs cell' r (n + 1) (omega arith) in
    let after = λ (p : ℕ). write_loop cell' p xs in
    (
      ap₂ (λ p c. window (after p).0 r 0 c) (sym next) (sym count)
          ∙ kept
          ∙ ap (λ t. t ++ xs) (window-write cell r n x (omega arith))
          ∙ append_assoc (window cell r 0 n) (x ∷ []) xs,
      ap (λ p. (after p).1) (sym next) ∙ ends ∙ ap (place r) count,
    )

pub read_loop-window :
    (n : ℕ) (cell : ℕ → ℕ) (r : ℕ)
    → r < ring_size
    → (read_loop cell r n).0 ≡ window cell r 0 n × ((read_loop cell r n).1 ≡ place r n)
unfolding read_loop window
read_loop-window zero cell r h = (refl, omega arith)
read_loop-window (suc n) cell r h =
    let (out, ends) = read_loop-window n cell (place r 1) (omega arith) in
    let here : cell r ≡ cell (place r 0) = ap cell (omega arith) in
    let there : place (place r 1) n ≡ place r (suc n) = omega arith in
    (ap₂ ◌∷◌ here (out ∙ window-shift cell r 1 0 n), ends ∙ there)
