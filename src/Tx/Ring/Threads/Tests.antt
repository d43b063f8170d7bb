-- ===== src/Tx/Ring/Threads/Tests.antt =====
-- Instances for the two threads of src/tx/SoapyTx.cpp.
use site_sim.Base.{ℕ, ◌≡◌, ◌<◌, refl, List, [], ◌∷◌, ◌++◌, length, arith}
use site_sim.Tx.Ring.{Ring, ring_size, update, ring_available}
use site_sim.Tx.Ring.Threads.{
  Threads, not_writing, writing, not_reading, reading, Reach, here, next, begins_write, puts,
  ends_write, begins_read, gets, idle_on,
}
use site_sim.Tx.Ring.Threads.Fifo.{Reach-in_order}

-- An empty ring whose positions stand at the last cell.
abbrev ring : Ring
ring = record { cell = λ i. 0; wpos = 4194303; rpos = 4194303 }

-- One byte is published and copied out while the next is on its way.
abbrev first : Threads
first = idle_on ring

abbrev published : Threads
published = record {
  ring = record { cell = update ring.cell 4194303 5; wpos = 0; rpos = 4194303 };
  writer = not_writing;
  reader = not_reading;
  put = 5 ∷ [];
  got = [];
}

abbrev both : Threads
both = record {
  ring = record { cell = update published.ring.cell 0 6; wpos = 0; rpos = 4194303 };
  writer = writing 1 [];
  reader = reading 0 0;
  put = 5 ∷ 6 ∷ [];
  got = 5 ∷ [];
}

first-published : Reach first published
unfolding ring_available
first-published =
    next
      (next (next here (begins_write first (5 ∷ []) refl (omega arith)))
        (puts (record first { writer = writing 4194303 (5 ∷ []) }) 4194303 5 [] refl))
      (ends_write
        (record published {
          ring = record published.ring { wpos = 4194303 };
          writer = writing 0 [];
        })
        0 refl)

first-both : Reach first both
unfolding ring_available
first-both =
    next
      (next
        (next (next first-published (begins_write published (6 ∷ []) refl (omega arith)))
          (begins_read (record published { writer = writing 0 (6 ∷ []) }) 1 refl (omega arith)))
        (puts (record published { writer = writing 0 (6 ∷ []); reader = reading 4194303 1 }) 0 6 []
          refl))
      (gets (record both { reader = reading 4194303 1; got = [] }) 4194303 0 refl)

Reach-in_order_example :
    (between : List ℕ) × (both.got ++ between ≡ both.put) × (length between < ring_size)
unfolding ring_available
Reach-in_order_example = Reach-in_order ring (omega arith) refl first-both
