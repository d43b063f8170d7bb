-- ===== src/Tx/Ring.antt =====
-- The ring buffer between the producer of the control channel and the transmitter thread, in
-- src/tx/SoapyTx.cpp: `ringAvailable`, `ringWrite`, `ringRead` and `write`, and the bytes that
-- `txThread` takes from it. A call of `ringWrite` or `ringRead` publishes its position once, at its
-- end, and is one step here. Bytes are moved and never computed with.
pub mod Window
pub mod Refine
pub mod Stream
pub mod Progress
pub mod Threads
mod Tests
use site_sim.Base.{
  ℕ, zero, suc, ◌+◌, ◌-◌, ◌*◌, ◌%◌, ◌^◌, min, List, [], ◌∷◌, ◌++◌, Option, none, some, length,
  replicate, ltb, leb, ◌==◌, if◌then◌else◌, u64,
}

-- `kRingSize`
abbrev pub ring_size : ℕ
ring_size = 4 * 1024 * 1024

-- `m_ring`, by index below `ring_size`, `m_wpos` and `m_rpos`.
pub record Ring : Type 0 where
  pub cell : ℕ → ℕ
  pub wpos : ℕ
  pub rpos : ℕ

abbrev pub update : (ℕ → ℕ) → ℕ → ℕ → ℕ → ℕ
update cell i v j = if i == j then v else cell j

-- `m_ring.resize(kRingSize, 0)`
pub new_ring : Ring
new_ring = record { cell = λ i. 0; wpos = 0; rpos = 0 }

-- `ringAvailable`, in `size_t`.
unfoldable pub ring_available : Ring → ℕ
ring_available r = u64 (u64 (r.wpos + 2 ^ 64 - r.rpos) + ring_size) % ring_size

-- The loop of `ringWrite`.
pub write_loop : (ℕ → ℕ) → ℕ → List ℕ → (ℕ → ℕ) × ℕ
write_loop cell w [] = (cell, w)
write_loop cell w (x ∷ xs) = write_loop (update cell w x) ((w + 1) % ring_size) xs

pub ring_write : Ring → List ℕ → Ring
ring_write r src =
    let (cell, w) = write_loop r.cell r.wpos src in record r { cell = cell; wpos = w }

-- The loop of `ringRead`, for a count: what is put into `dst`, and the position.
pub read_loop : (ℕ → ℕ) → ℕ → ℕ → List ℕ × ℕ
read_loop cell r zero = ([], r)
read_loop cell r (suc n) =
    let (out, r') = read_loop cell ((r + 1) % ring_size) n in (cell r ∷ out, r')

pub ring_read : Ring → ℕ → List ℕ × Ring
ring_read r n = let (out, pos) = read_loop r.cell r.rpos n in (out, record r { rpos = pos })

-- One turn of `write`: `none` if it sleeps and tries again.
pub write : Ring → List ℕ → Option Ring
write r src =
    if leb ring_size (u64 (ring_available r + length src)) then none else some (ring_write r src)

-- `kChunkBytes`
abbrev pub chunk_bytes : ℕ
chunk_bytes = 8192 * 2

-- One turn of the loop of `txThread` with a device: the bytes that it hands to the driver. On an
-- underrun the rest of the buffer is cleared.
pub tx_chunk : Ring → List ℕ × Ring
tx_chunk r =
    let avail = ring_available r in
    if leb chunk_bytes avail
    then ring_read r chunk_bytes
    else let (out, r') = if ltb 0 avail then ring_read r avail else ([], r) in
      (out ++ replicate (chunk_bytes - avail) 0, r')

-- One turn of the loop without a device: it throws bytes away.
pub tx_drain : Ring → Ring
tx_drain r =
    let avail = ring_available r in if ltb 0 avail then (ring_read r (min avail 16384)).1 else r
