-- ===== src/P25/Frame/Status.antt =====
-- Where the status symbols go: the frame in blocks of 35 dibits, the last one filled with zeros, and
-- a status symbol behind each.
use site_sim.Base.{
  ℕ, zero, suc, ◌+◌, ◌-◌, ◌*◌, ◌/◌, ◌%◌, ◌≤◌, ◌<◌, ◌≡◌, ◌≢◌, refl, sym, ap, ◌∙◌, List, [], ◌∷◌,
  ◌++◌, some, length, replicate, arith,
}
use site_sim.P25.Frame.{pad_status, data_status, insert_status_symbols}

-- `blocks n c ds ss`: `c` places are left in this block, and `n` blocks after it.
pub blocks : ℕ → ℕ → List ℕ → ℕ → List ℕ
blocks zero zero ds ss = ss ∷ []
blocks (suc n) zero ds ss = ss ∷ blocks n 35 ds ss
blocks n (suc c) [] ss = 0 ∷ blocks n c [] ss
blocks n (suc c) (d ∷ ds) ss = d ∷ blocks n c ds ss

module _ (ss : ℕ) where
  pad_done : (rounds i : ℕ) → pad_status rounds ss i 0 ≡ some []
  unfolding pad_status
  pad_done zero i = refl
  pad_done (suc rounds) i = refl

  pad_hit : (rounds i : ℕ) → i % 35 ≡ 0 → pad_status (suc rounds) ss i 1 ≡ some (0 ∷ ss ∷ [])
  unfolding pad_status
  pad_hit rounds i h = ground (arith, pad_done rounds (i + 1))

  pad_miss :
      (rounds i : ℕ) (out : List ℕ)
      → i % 35 ≢ 0
      → pad_status rounds ss (i + 1) 1 ≡ some out
      → pad_status (suc rounds) ss i 1 ≡ some (0 ∷ out)
  unfolding pad_status
  pad_miss rounds i out h e = ground arith

  -- In the last block: `c` places are left behind this one.
  pad_status-blocks :
      (c rounds i : ℕ)
      → c < rounds
      → c < 35
      → i % 35 ≡ (35 - c) % 35
      → pad_status rounds ss i 1 ≡ some (blocks 0 (suc c) [] ss)
  unfolding blocks
  pad_status-blocks c zero i h k e = absurd (omega arith)
  pad_status-blocks zero (suc rounds) i h k e = pad_hit rounds i (omega arith)
  pad_status-blocks (suc c) (suc rounds) i h k e =
      pad_miss rounds i (blocks 0 (suc c) [] ss) (omega arith)
        (pad_status-blocks c rounds (i + 1) (omega arith) (omega arith) (omega arith))

  data_hit :
      (d : ℕ) (ds out : List ℕ) (i n : ℕ)
      → i % 35 ≡ 0
      → data_status 35 ds ss (i + 1) n ≡ some out
      → data_status 35 (d ∷ ds) ss i (suc n) ≡ some (d ∷ ss ∷ out)
  unfolding data_status
  data_hit d ds out i n h e = ground arith

  data_miss :
      (d : ℕ) (ds out : List ℕ) (i n : ℕ)
      → i % 35 ≢ 0
      → data_status 35 ds ss (i + 1) n ≡ some out
      → data_status 35 (d ∷ ds) ss i n ≡ some (d ∷ out)
  unfolding data_status
  data_miss d ds out i n h e = ground arith

  data_status-blocks :
      (ds : List ℕ) (n c i : ℕ)
      → c < 35
      → i % 35 ≡ (35 - c) % 35
      → length ds ≤ 35 * n + c + 1
      → 35 * n + c + 1 < 35 + length ds
      → data_status 35 ds ss i (suc n) ≡ some (blocks n (suc c) ds ss)
  unfolding blocks
  data_status-blocks [] (suc n) c i hc hi short long = absurd (omega arith)
  data_status-blocks [] zero c i hc hi short long =
      let padded = pad_status-blocks c 35 i (omega arith) hc hi in unfold data_status in padded
  data_status-blocks (d ∷ e ∷ ds) zero zero i hc hi short long = absurd (omega arith)
  data_status-blocks (d ∷ []) zero zero i hc hi short long =
      data_hit d [] [] i 0 (omega arith) (unfold data_status in pad_done 35 (i + 1))
  data_status-blocks (d ∷ ds) (suc n) zero i hc hi short long =
      data_hit d ds (blocks n 35 ds ss) i (suc n) (omega arith)
        (data_status-blocks ds n 34 (i + 1) (omega arith) (omega arith) (omega arith) (omega arith))
  data_status-blocks (d ∷ ds) n (suc c) i hc hi short long =
      data_miss d ds (blocks n (suc c) ds ss) i (suc n) (omega arith)
        (data_status-blocks ds n c (i + 1) (omega arith) (omega arith) (omega arith) (omega arith))

-- What a receiver does: it takes out the status symbols, with `c` places to go to the next one.
pub strip_status : ℕ → List ℕ → List ℕ
strip_status c [] = []
strip_status zero (y ∷ ys) = strip_status 35 ys
strip_status (suc c) (y ∷ ys) = y ∷ strip_status c ys

pub statuses : ℕ → List ℕ → List ℕ
statuses c [] = []
statuses zero (y ∷ ys) = y ∷ statuses 35 ys
statuses (suc c) (y ∷ ys) = statuses c ys

-- A list filled up with zeros to a length.
abbrev pub filled : ℕ → List ℕ → List ℕ
filled n ds = ds ++ replicate (n - length ds) 0

filled-nil : (n : ℕ) → filled (suc n) [] ≡ 0 ∷ filled n []
filled-nil n = let e : suc n - 0 ≡ suc (n - 0) = omega arith in ap (λ k. replicate k 0) e

filled-cons : (n d : ℕ) (ds : List ℕ) → filled (suc n) (d ∷ ds) ≡ d ∷ filled n ds
filled-cons n d ds = ap (λ k. d ∷ ds ++ replicate k 0) (omega arith)

strip-blocks :
    (n c : ℕ) (ds : List ℕ) (ss : ℕ)
    → length ds ≤ 35 * n + c
    → strip_status c (blocks n c ds ss) ≡ filled (35 * n + c) ds
unfolding strip_status blocks
strip-blocks zero zero [] ss h = refl
strip-blocks zero zero (d ∷ ds) ss h = absurd (omega arith)
strip-blocks (suc n) zero ds ss h =
    strip-blocks n 35 ds ss (omega arith) ∙ ap (λ k. filled k ds) (omega arith)
strip-blocks n (suc c) [] ss h =
    ap (λ t. 0 ∷ t) (strip-blocks n c [] ss (omega arith))
    ∙ sym (filled-nil (35 * n + c))
    ∙ ap (λ k. filled k []) (omega arith)
strip-blocks n (suc c) (d ∷ ds) ss h =
    ap (λ t. d ∷ t) (strip-blocks n c ds ss (omega arith))
    ∙ sym (filled-cons (35 * n + c) d ds)
    ∙ ap (λ k. filled k (d ∷ ds)) (omega arith)

statuses-blocks :
    (n c : ℕ) (ds : List ℕ) (ss : ℕ) → statuses c (blocks n c ds ss) ≡ replicate (suc n) ss
unfolding statuses blocks
statuses-blocks zero zero ds ss = refl
statuses-blocks (suc n) zero ds ss = ap (λ t. ss ∷ t) (statuses-blocks n 35 ds ss)
statuses-blocks n (suc c) [] ss = statuses-blocks n c [] ss
statuses-blocks n (suc c) (d ∷ ds) ss = statuses-blocks n c ds ss

length-blocks : (n c : ℕ) (ds : List ℕ) (ss : ℕ) → length (blocks n c ds ss) ≡ 36 * n + c + 1
unfolding blocks
length-blocks zero zero ds ss = refl
length-blocks (suc n) zero ds ss = omega (arith, length-blocks n 35 ds ss)
length-blocks n (suc c) [] ss = omega (arith, length-blocks n c [] ss)
length-blocks n (suc c) (d ∷ ds) ss = omega (arith, length-blocks n c ds ss)

-- How many status symbols a frame gets.
abbrev pub status_count : List ℕ → ℕ
status_count ds = (length ds + 34) / 35

-- The loops always end. Their output without every 36th symbol is the input, filled up with zeros to
-- a whole number of blocks; those symbols are all the status symbol, and they are as many as blocks.
pub insert_status_symbols_lem :
    (ds : List ℕ) (ss : ℕ)
    → (out : List ℕ) × (insert_status_symbols ds ss ≡ some out)
      × (strip_status 35 out ≡ filled (35 * status_count ds) ds)
      × (statuses 35 out ≡ replicate (status_count ds) ss)
      × (length out ≡ 36 * status_count ds)
unfolding strip_status statuses
insert_status_symbols_lem [] ss =
    ([], unfold insert_status_symbols data_status in pad_done ss 35 1, refl, refl, refl)
insert_status_symbols_lem (d ∷ ds) ss = (
  blocks n 35 (d ∷ ds) ss,
  inserted,
  strip-blocks n 35 (d ∷ ds) ss (omega arith) ∙ ap (λ k. filled k (d ∷ ds)) (omega arith),
  statuses-blocks n 35 (d ∷ ds) ss ∙ ap (λ k. replicate k ss) (sym one_more),
  omega (arith, length-blocks n 35 (d ∷ ds) ss),
)
  where
    n : ℕ
    n = length ds / 35

    one_more : status_count (d ∷ ds) ≡ suc n
    one_more = omega arith

    inserted : insert_status_symbols (d ∷ ds) ss ≡ some (blocks n 35 (d ∷ ds) ss)
    inserted =
        let blocked =
          data_status-blocks ss (d ∷ ds) n 34 1 (omega arith) refl (omega arith) (omega arith) in
        unfold insert_status_symbols in ap (data_status 35 (d ∷ ds) ss 1) one_more ∙ blocked
