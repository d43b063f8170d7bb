-- ===== src/Tx/Ring/Threads/Fifo.antt =====
-- However the two threads of src/tx/SoapyTx.cpp interleave, the bytes come out as they went in.
use site_sim.Base.{
  ℕ, zero, suc, ◌+◌, ◌-◌, ◌%◌, ◌≤◌, ◌<◌, ◌≡◌, refl, sym, subst, ap, ap₂, ◌∙◌, List, [], ◌∷◌, ◌++◌,
  length, arith,
}
use mathlib.Core.List.{append_assoc}
use site_sim.Tx.Ring.{Ring, ring_size, update, ring_available}
use site_sim.Tx.Ring.Window.{
  place, window, length-window, window_split, window-update, update_self, window-shift,
}
use site_sim.Tx.Ring.Refine.{RingIsValid, available_at}
use site_sim.Tx.Ring.Threads.{
  Writer, not_writing, writing, Reader, not_reading, reading, Threads, Step, begins_write, puts,
  ends_write, begins_read, gets, ends_read, Reach, here, next, idle_on,
}

-- So many bytes are published, and the writer has put so many more.
abbrev WriterIsAt : ℕ → ℕ → ℕ → Writer → Type 0
WriterIsAt rpos avail ahead not_writing = (ahead ≡ 0) × (avail < ring_size)
WriterIsAt rpos avail ahead (writing w xs) =
    (w ≡ place rpos (avail + ahead)) × (avail + ahead + length xs < ring_size)

-- The reader has copied so many of the published bytes.
abbrev ReaderIsAt : ℕ → ℕ → ℕ → Reader → Type 0
ReaderIsAt rpos avail done not_reading = done ≡ 0
ReaderIsAt rpos avail done (reading r n) = (r ≡ place rpos done) × (done + n ≤ avail)

record IsFifo (t : Threads) : Type 0 where
  avail : ℕ
  ahead : ℕ
  done : ℕ
  left : ℕ
  valid : RingIsValid t.ring
  published : t.ring.wpos ≡ place t.ring.rpos avail
  writer_at : WriterIsAt t.ring.rpos avail ahead t.writer
  reader_at : ReaderIsAt t.ring.rpos avail done t.reader
  total : done + left ≡ avail + ahead
  room : avail + ahead < ring_size
  order : t.got ++ window t.ring.cell t.ring.rpos done left ≡ t.put

window_put :
    (cell : ℕ → ℕ) (r i n j x : ℕ)
    → i + n ≡ j
    → j < ring_size
    → window (update cell (place r j) x) r i (n + 1) ≡ window cell r i n ++ x ∷ []
unfolding window
window_put cell r i n j x h k =
    let cell' = update cell (place r j) x in
    let last : window cell' r (i + n) 1 ≡ x ∷ [] =
      ap (λ t. window cell' r t 1) h ∙ ap (λ t. t ∷ []) (update_self cell (place r j) x) in
    window_split cell' r i n 1 ∙ ap₂ ◌++◌ (window-update cell r i n j x (omega arith) k) last

window_front :
    (cell : ℕ → ℕ) (r i n : ℕ)
    → window cell r i (suc n) ≡ cell (place r i) ∷ window cell r (i + 1) n
unfolding window
window_front cell r i n =
    let index : suc i ≡ i + 1 = omega arith in ap (λ j. cell (place r i) ∷ window cell r j n) index

reader_later :
    (rpos avail ahead done : ℕ) (reader : Reader)
    → ReaderIsAt rpos avail done reader
    → ReaderIsAt rpos (avail + ahead) done reader
reader_later rpos avail ahead done not_reading h = h
reader_later rpos avail ahead done (reading r n) (at, enough) = (at, omega arith)

writer_later :
    (rpos r avail ahead done : ℕ) (writer : Writer)
    → r ≡ place rpos done
    → done + 0 ≤ avail
    → WriterIsAt rpos avail ahead writer
    → WriterIsAt r (avail - done) ahead writer
writer_later rpos r avail ahead done not_writing at enough (none_ahead, small) =
    (none_ahead, omega arith)
writer_later rpos r avail ahead done (writing w xs) at enough (place_w, small) =
    (omega (arith, at, place_w), omega arith)

begins_write-IsFifo :
    (t : Threads) (src : List ℕ)
    → t.writer ≡ not_writing
    → ring_available t.ring + length src < ring_size
    → IsFifo t
    → IsFifo (record t { writer = writing t.ring.wpos src })
begins_write-IsFifo t src e h f =
    let (none_ahead, small) = subst (WriterIsAt t.ring.rpos f.avail f.ahead) e f.writer_at in
    let count = available_at t.ring f.avail f.valid small f.published in
    record {
      avail = f.avail;
      ahead = f.ahead;
      done = f.done;
      left = f.left;
      valid = f.valid;
      published = f.published;
      writer_at = (f.published ∙ ap (place t.ring.rpos) (omega arith), omega arith);
      reader_at = f.reader_at;
      total = f.total;
      room = f.room;
      order = f.order;
    }

puts-IsFifo :
    (t : Threads) (w x : ℕ) (xs : List ℕ)
    → t.writer ≡ writing w (x ∷ xs)
    → IsFifo t
    → IsFifo (record t {
      ring = record t.ring { cell = update t.ring.cell w x };
      writer = writing ((w + 1) % ring_size) xs;
      put = t.put ++ x ∷ [];
    })
puts-IsFifo t w x xs e f =
    let (at, small) = subst (WriterIsAt t.ring.rpos f.avail f.ahead) e f.writer_at in
    let cell = t.ring.cell in
    let kept =
      ap (λ p. window (update cell p x) t.ring.rpos f.done (f.left + 1)) at
      ∙ window_put cell t.ring.rpos f.done f.left (f.avail + f.ahead) x f.total f.room in
    record {
      avail = f.avail;
      ahead = f.ahead + 1;
      done = f.done;
      left = f.left + 1;
      valid = f.valid;
      published = f.published;
      writer_at = (omega (arith, at), omega arith);
      reader_at = f.reader_at;
      total = omega (arith, f.total);
      room = omega arith;
      order =
          ap (◌++◌ t.got) kept
          ∙ sym (append_assoc t.got (window cell t.ring.rpos f.done f.left) (x ∷ []))
          ∙ ap (λ l. l ++ x ∷ []) f.order;
    }

ends_write-IsFifo :
    (t : Threads) (w : ℕ)
    → t.writer ≡ writing w []
    → IsFifo t
    → IsFifo (record t { ring = record t.ring { wpos = w }; writer = not_writing })
ends_write-IsFifo t w e f =
    let (at, small) = subst (WriterIsAt t.ring.rpos f.avail f.ahead) e f.writer_at in
    record {
      avail = f.avail + f.ahead;
      ahead = 0;
      done = f.done;
      left = f.left;
      valid = (omega (arith, at), f.valid.1);
      published = at;
      writer_at = (refl, f.room);
      reader_at = reader_later t.ring.rpos f.avail f.ahead f.done t.reader f.reader_at;
      total = omega (arith, f.total);
      room = omega (arith, f.room);
      order = f.order;
    }

begins_read-IsFifo :
    (t : Threads) (n : ℕ)
    → t.reader ≡ not_reading
    → n ≤ ring_available t.ring
    → IsFifo t
    → IsFifo (record t { reader = reading t.ring.rpos n })
begins_read-IsFifo t n e h f =
    let none_done = subst (ReaderIsAt t.ring.rpos f.avail f.done) e f.reader_at in
    let count = available_at t.ring f.avail f.valid (omega (arith, f.room)) f.published in
    record {
      avail = f.avail;
      ahead = f.ahead;
      done = f.done;
      left = f.left;
      valid = f.valid;
      published = f.published;
      writer_at = f.writer_at;
      reader_at = (omega (arith, none_done, f.valid), omega (arith, none_done, count));
      total = f.total;
      room = f.room;
      order = f.order;
    }

gets-IsFifo :
    (t : Threads) (r n : ℕ)
    → t.reader ≡ reading r (suc n)
    → IsFifo t
    → IsFifo
        (record t { reader = reading ((r + 1) % ring_size) n; got = t.got ++ t.ring.cell r ∷ [] })
gets-IsFifo t r n e f =
    let (at, enough) = subst (ReaderIsAt t.ring.rpos f.avail f.done) e f.reader_at in
    let cell = t.ring.cell in
    let more : f.left ≡ suc (f.left - 1) = omega (arith, f.total) in
    let first : window cell t.ring.rpos f.done f.left
        ≡ cell r ∷ window cell t.ring.rpos (f.done + 1) (f.left - 1) =
      ap (window cell t.ring.rpos f.done) more
      ∙ window_front cell t.ring.rpos f.done (f.left - 1)
      ∙ ap (λ p. cell p ∷ window cell t.ring.rpos (f.done + 1) (f.left - 1)) (sym at) in
    record {
      avail = f.avail;
      ahead = f.ahead;
      done = f.done + 1;
      left = f.left - 1;
      valid = f.valid;
      published = f.published;
      writer_at = f.writer_at;
      reader_at = (omega (arith, at), omega (arith, enough));
      total = omega (arith, f.total, enough);
      room = f.room;
      order =
          append_assoc t.got (cell r ∷ []) (window cell t.ring.rpos (f.done + 1) (f.left - 1))
          ∙ ap (◌++◌ t.got) (sym first)
          ∙ f.order;
    }

ends_read-IsFifo :
    (t : Threads) (r : ℕ)
    → t.reader ≡ reading r zero
    → IsFifo t
    → IsFifo (record t { ring = record t.ring { rpos = r }; reader = not_reading })
ends_read-IsFifo t r e f =
    let (at, enough) = subst (ReaderIsAt t.ring.rpos f.avail f.done) e f.reader_at in
    let cell = t.ring.cell in
    record {
      avail = f.avail - f.done;
      ahead = f.ahead;
      done = 0;
      left = f.left;
      valid = (f.valid.0, omega (arith, at));
      published = omega (arith, at, enough, f.published);
      writer_at = writer_later t.ring.rpos r f.avail f.ahead f.done t.writer at enough f.writer_at;
      reader_at = refl;
      total = omega (arith, f.total, enough);
      room = omega (arith, f.room);
      order =
          ap (λ p. t.got ++ window cell p 0 f.left) at
          ∙ ap (◌++◌ t.got) (window-shift cell t.ring.rpos f.done 0 f.left)
          ∙ ap (λ i. t.got ++ window cell t.ring.rpos i f.left) (omega arith)
          ∙ f.order;
    }

Step-IsFifo : {t u : Threads} → Step t u → IsFifo t → IsFifo u
Step-IsFifo (begins_write t src e h) f = begins_write-IsFifo t src e h f
Step-IsFifo (puts t w x xs e) f = puts-IsFifo t w x xs e f
Step-IsFifo (ends_write t w e) f = ends_write-IsFifo t w e f
Step-IsFifo (begins_read t n e h) f = begins_read-IsFifo t n e h f
Step-IsFifo (gets t r n e) f = gets-IsFifo t r n e f
Step-IsFifo (ends_read t r e) f = ends_read-IsFifo t r e f

idle_on-IsFifo : (r : Ring) → RingIsValid r → ring_available r ≡ 0 → IsFifo (idle_on r)
unfolding ring_available window
idle_on-IsFifo r v empty = record {
  avail = 0;
  ahead = 0;
  done = 0;
  left = 0;
  valid = v;
  published = omega (arith, empty);
  writer_at = (refl, omega arith);
  reader_at = refl;
  total = refl;
  room = omega arith;
  order = refl;
}

Reach-IsFifo : {t u : Threads} → IsFifo t → Reach t u → IsFifo u
Reach-IsFifo f here = f
Reach-IsFifo f (next r s) = Step-IsFifo s (Reach-IsFifo f r)

-- From an empty ring with both positions in bounds, however the bytes of the two threads interleave, the
-- bytes that were copied out are the first of those that were put in, in order, and less than a
-- ring of them are still in between: none is lost, repeated, or overwritten before it is copied.
pub Reach-in_order :
    {t : Threads} (r : Ring)
    → RingIsValid r
    → ring_available r ≡ 0
    → Reach (idle_on r) t
    → (between : List ℕ) × (t.got ++ between ≡ t.put) × (length between < ring_size)
Reach-in_order {t = t} r v empty reach =
    let f = Reach-IsFifo (idle_on-IsFifo r v empty) reach in
    let bytes = window t.ring.cell t.ring.rpos f.done f.left in
    (
      bytes,
      f.order,
      omega (arith, length-window t.ring.cell t.ring.rpos f.done f.left, f.total, f.room),
    )
