-- ===== src/Tx/Ring/Threads.antt =====
-- `ringWrite` and `ringRead` of src/tx/SoapyTx.cpp, one byte at a time, in two threads. A load or a store
-- of a position, and the copy of a byte, is one step; the stores release and the loads acquire, so the
-- steps of the two threads are in one order.
pub mod Fifo
mod Tests
use site_sim.Base.{ℕ, zero, suc, ◌+◌, ◌%◌, ◌≤◌, ◌<◌, ◌≡◌, List, [], ◌∷◌, ◌++◌, length}
use site_sim.Tx.Ring.{Ring, ring_size, update, ring_available}

-- The producer between calls of `ringWrite`, or in one: its `w`, and the bytes that are left.
pub data Writer : Type 0 where
  not_writing : Writer
  writing : ℕ → List ℕ → Writer

-- The transmitter between calls of `ringRead`, or in one: its `r`, and the number of bytes left.
pub data Reader : Type 0 where
  not_reading : Reader
  reading : ℕ → ℕ → Reader

-- The ring, the two threads, the bytes that were put into the ring, and those that were copied out.
pub record Threads : Type 0 where
  pub ring : Ring
  pub writer : Writer
  pub reader : Reader
  pub put : List ℕ
  pub got : List ℕ

pub data Step : Threads → Threads → Type 0 where
  -- `write` finds room, and `ringWrite` loads the position.
  begins_write :
      (t : Threads) (src : List ℕ)
      → t.writer ≡ not_writing
      → ring_available t.ring + length src < ring_size
      → Step t (record t { writer = writing t.ring.wpos src })
  puts :
      (t : Threads) (w x : ℕ) (xs : List ℕ)
      → t.writer ≡ writing w (x ∷ xs)
      → Step t (record t {
        ring = record t.ring { cell = update t.ring.cell w x };
        writer = writing ((w + 1) % ring_size) xs;
        put = t.put ++ x ∷ [];
      })
  ends_write :
      (t : Threads) (w : ℕ)
      → t.writer ≡ writing w []
      → Step t (record t { ring = record t.ring { wpos = w }; writer = not_writing })
  -- `txThread` asks for no more than is there, and `ringRead` loads the position.
  begins_read :
      (t : Threads) (n : ℕ)
      → t.reader ≡ not_reading
      → n ≤ ring_available t.ring
      → Step t (record t { reader = reading t.ring.rpos n })
  gets :
      (t : Threads) (r n : ℕ)
      → t.reader ≡ reading r (suc n)
      → Step t
          (record t { reader = reading ((r + 1) % ring_size) n; got = t.got ++ t.ring.cell r ∷ [] })
  ends_read :
      (t : Threads) (r : ℕ)
      → t.reader ≡ reading r zero
      → Step t (record t { ring = record t.ring { rpos = r }; reader = not_reading })

pub data Reach (t : Threads) : Threads → Type 0 where
  here : Reach t t
  next : {u v : Threads} → Reach t u → Step u v → Reach t v

-- A new ring, and the two threads before their first calls.
abbrev pub idle_on : Ring → Threads
idle_on ring = record {
  ring = ring;
  writer = not_writing;
  reader = not_reading;
  put = [];
  got = [];
}
