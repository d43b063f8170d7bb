-- ===== src/Tx/Ring/Refine.antt =====
-- The ring buffer of src/tx/SoapyTx.cpp as a queue of bytes.
use site_sim.Base.{
  ℕ, ◌+◌, ◌-◌, ◌^◌, ◌≤◌, ◌<◌, ◌≡◌, sym, ap, ap₂, ◌∙◌, inl, inr, List, [], ◌++◌, Option, none, some,
  Bool-cases, leb→le, leb-false→lt, ltb-false→le, drop_min, take-append, drop-append, take_all,
  drop_all, length, take, drop, replicate, leb, ltb, min, if◌then◌else◌, u64, arith,
}
use mathlib.Core.List.{append-nil}
use site_sim.Tx.Ring.{
  Ring, ring_size, write_loop, ring_available, ring_write, ring_read, write, tx_chunk, tx_drain,
  chunk_bytes,
}
use site_sim.Tx.Ring.Window.{
  place, window, window_nil, length-window, window_split, window-shift, write_loop-window,
  read_loop-window,
}

-- Both positions are indices of the buffer.
abbrev pub RingIsValid : Ring → Type 0
RingIsValid r = (r.wpos < ring_size) × (r.rpos < ring_size)

-- The bytes that wait, the oldest first.
abbrev pub contents : Ring → List ℕ
contents r = window r.cell r.rpos 0 (ring_available r)

pub ring_available_lem :
    (r : Ring)
    → RingIsValid r
    → (ring_available r < ring_size) × (place r.rpos (ring_available r) ≡ r.wpos)
unfolding ring_available
ring_available_lem r v = (omega arith, omega arith)

pub available_at :
    (r : Ring) (n : ℕ)
    → RingIsValid r
    → n < ring_size
    → r.wpos ≡ place r.rpos n
    → ring_available r ≡ n
unfolding ring_available
available_at r n v h e = omega arith

pub length-contents : (r : Ring) → length (contents r) ≡ ring_available r
length-contents r = length-window r.cell r.rpos 0 (ring_available r)

ring_write_lem :
    (r : Ring) (src : List ℕ)
    → RingIsValid r
    → ring_available r + length src < ring_size
    → RingIsValid (ring_write r src) × (contents (ring_write r src) ≡ contents r ++ src)
unfolding ring_write
ring_write_lem r src v h =
    let (small, at) = ring_available_lem r v in
    let n = ring_available r + length src in
    let (bytes, ends) = write_loop-window src r.cell r.rpos (ring_available r) h in
    let after = λ (p : ℕ). write_loop r.cell p src in
    let ends' : (after r.wpos).1 ≡ place r.rpos n = ap (λ p. (after p).1) (sym at) ∙ ends in
    let valid : RingIsValid (ring_write r src) = (omega (arith, ends'), v.1) in
    let count : ring_available (ring_write r src) ≡ n =
      available_at (ring_write r src) n valid h ends' in
    (valid, ap₂ (λ p c. window (after p).0 r.rpos 0 c) (sym at) count ∙ bytes)

-- What a write does to a queue of bytes that holds less than a round of the buffer.
abbrev pub queue_write : List ℕ → List ℕ → Option (List ℕ)
queue_write q src = if leb ring_size (length q + length src) then none else some (q ++ src)

-- A ring that is a given queue, or neither, a write that has to wait.
abbrev pub IsQueue : Option Ring → Option (List ℕ) → Type 0
IsQueue none none = Unit
IsQueue none (some q) = ⊥
IsQueue (some r) none = ⊥
IsQueue (some r) (some q) = RingIsValid r × (contents r ≡ q)

-- On a ring with both positions in bounds, a write of less than 2 ^ 63 bytes waits exactly if the
-- bytes would not leave one of the cells free, and else it puts them behind those that wait.
pub write-IsQueue :
    (r : Ring) (src : List ℕ)
    → RingIsValid r
    → length src < 2 ^ 63
    → IsQueue (write r src) (queue_write (contents r) src)
unfolding write
write-IsQueue r src v h =
    let (small, at) = ring_available_lem r v in
    let count : u64 (ring_available r + length src) ≡ length (contents r) + length src =
      omega (arith, length-contents r) in
    rw count (elim (Bool-cases (leb ring_size (length (contents r) + length src))) [
      | inl e ↦ rw e tt
      | inr e ↦ rw e (
          ring_write_lem r src v (
            omega (
              arith,
              length-contents r,
              leb-false→lt ring_size (length (contents r) + length src) e,
            )))
    ])

ring_read_lem :
    (r : Ring) (n : ℕ)
    → RingIsValid r
    → n ≤ ring_available r
    → ((ring_read r n).0 ≡ take n (contents r))
      × RingIsValid (ring_read r n).1
      × (contents (ring_read r n).1 ≡ drop n (contents r))
unfolding ring_read
ring_read_lem r n v h =
    let (small, at) = ring_available_lem r v in
    let m = ring_available r - n in
    let (out, ends) = read_loop-window n r.cell r.rpos v.1 in
    let r' = (ring_read r n).1 in
    let valid : RingIsValid r' = (v.0, omega (arith, ends)) in
    let count : ring_available r' ≡ m =
      available_at r' m valid (omega arith) (omega (arith, ends, at)) in
    let total : ring_available r ≡ n + m = omega arith in
    let first = window r.cell r.rpos 0 n in
    let rest = window r.cell r.rpos n m in
    let whole : contents r ≡ first ++ rest =
      ap (window r.cell r.rpos 0) total
      ∙ window_split r.cell r.rpos 0 n m
      ∙ ap (λ i. first ++ window r.cell r.rpos i m) (omega arith) in
    let left : contents r' ≡ rest =
      ap₂ (λ p c. window r.cell p 0 c) ends count
      ∙ window-shift r.cell r.rpos n 0 m
      ∙ ap (λ i. window r.cell r.rpos i m) (omega arith) in
    let size = length-window r.cell r.rpos 0 n in
    (
      out ∙ sym (take-append n first rest size) ∙ ap (take n) (sym whole),
      valid,
      left ∙ sym (drop-append n first rest size) ∙ ap (drop n) (sym whole),
    )

-- What the underrun takes.
abbrev all_read : Ring → List ℕ × Ring
all_read r = if ltb 0 (ring_available r) then ring_read r (ring_available r) else ([], r)

all_read_lem :
    (r : Ring)
    → RingIsValid r
    → ((all_read r).0 ≡ contents r) × RingIsValid (all_read r).1 × (contents (all_read r).1 ≡ [])
all_read_lem r v = elim (Bool-cases (ltb 0 (ring_available r))) [
  | inl e ↦
      let n = ring_available r in
      let (out, valid, left) = ring_read_lem r n v (omega arith) in
      let size : length (contents r) ≤ n = omega (arith, length-contents r) in
      rw e (out ∙ take_all n (contents r) size, valid, left ∙ drop_all n (contents r) size)
  | inr e ↦
      let empty : ring_available r ≡ 0 = omega (arith, ltb-false→le 0 (ring_available r) e) in
      let nothing : contents r ≡ [] = window_nil r.cell r.rpos 0 (ring_available r) empty in
      rw e (sym nothing, v, nothing)
]

abbrev pub ChunkIsNext : Ring → List ℕ × Ring → Type 0
ChunkIsNext r (out, r') =
    (out ≡ take chunk_bytes (contents r) ++ replicate (chunk_bytes - length (contents r)) 0)
    × RingIsValid r'
    × (contents r' ≡ drop chunk_bytes (contents r))

-- On a ring with both positions in bounds, a turn of the transmitter takes the first 16384 bytes that
-- wait, or all of them, and fills the chunk up with zeros.
pub tx_chunk-ChunkIsNext : (r : Ring) → RingIsValid r → ChunkIsNext r (tx_chunk r)
unfolding tx_chunk
tx_chunk-ChunkIsNext r v = elim (Bool-cases (leb chunk_bytes (ring_available r))) [
  | inl e ↦
      let (out, valid, left) =
        ring_read_lem r chunk_bytes v (leb→le chunk_bytes (ring_available r) e) in
      let enough = leb→le chunk_bytes (ring_available r) e in
      let none_left : chunk_bytes - length (contents r) ≡ 0 = omega (arith, length-contents r) in
      let first = take chunk_bytes (contents r) in
      rw e (
        out ∙ sym (append-nil first) ∙ ap (λ k. first ++ replicate k 0) (sym none_left),
        valid,
        left,
      )
  | inr e ↦
      let (out, valid, left) = all_read_lem r v in
      let few = leb-false→lt chunk_bytes (ring_available r) e in
      let size : length (contents r) ≤ chunk_bytes = omega (arith, length-contents r) in
      rw e (
        ap₂ (λ xs k. xs ++ replicate (chunk_bytes - k) 0)
            (out ∙ sym (take_all chunk_bytes (contents r) size)) (sym (length-contents r)),
        valid,
        left ∙ sym (drop_all chunk_bytes (contents r) size),
      )
]

-- Without a device, a turn throws away the first 16384 bytes that wait, or all of them.
pub tx_drain_lem :
    (r : Ring)
    → RingIsValid r
    → RingIsValid (tx_drain r) × (contents (tx_drain r) ≡ drop 16384 (contents r))
unfolding tx_drain
tx_drain_lem r v = elim (Bool-cases (ltb 0 (ring_available r))) [
  | inl e ↦
      let n = min (ring_available r) 16384 in
      let (out, valid, left) = ring_read_lem r n v (omega arith) in
      rw e (valid, left ∙ drop_min (contents r) (ring_available r) 16384 (length-contents r))
  | inr e ↦
      let empty : ring_available r ≡ 0 = omega (arith, ltb-false→le 0 (ring_available r) e) in
      let nothing : contents r ≡ [] = window_nil r.cell r.rpos 0 (ring_available r) empty in
      rw e (v, nothing ∙ ap (drop 16384) (sym nothing))
]
