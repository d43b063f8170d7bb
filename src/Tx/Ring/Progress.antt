-- ===== src/Tx/Ring/Progress.antt =====
-- `write` of src/tx/SoapyTx.cpp gets through: at once where there is room, and else after some turns of
-- the transmitter.
use site_sim.Base.{
  ℕ, zero, suc, ◌+◌, ◌-◌, ◌*◌, ◌≤◌, ◌<◌, ◌≡◌, refl, sym, subst, ap, ◌∙◌, List, ◌++◌, Option, none,
  some, Bool-cases, inl, inr, length, drop, drop_all, length-drop, leb, leb→le, leb-false→lt, [],
  ◌∷◌, arith,
}
use site_sim.Tx.Ring.{Ring, ring_size, chunk_bytes, ring_available, write, tx_chunk}
use site_sim.Tx.Ring.Refine.{
  RingIsValid, ring_available_lem, contents, length-contents, IsQueue, queue_write, write-IsQueue,
  tx_chunk-ChunkIsNext,
}

queue_write_room :
    (q src : List ℕ) → length q + length src < ring_size → queue_write q src ≡ some (q ++ src)
queue_write_room q src h = elim (Bool-cases (leb ring_size (length q + length src))) [
  | inl e ↦ absurd (omega (arith, leb→le ring_size (length q + length src) e))
  | inr e ↦ rw e refl
]

abbrev Written : Ring → List ℕ → Option Ring → Type 0
Written r src w = (r' : Ring) × (w ≡ some r') × RingIsValid r' × (contents r' ≡ contents r ++ src)

some-Written :
    (r : Ring) (src : List ℕ) (w : Option Ring)
    → IsQueue w (some (contents r ++ src))
    → Written r src w
some-Written r src none h = absurd h
some-Written r src (some r') (valid, same) = (r', refl, valid, same)

-- A write with room does not wait.
pub write_room :
    (r : Ring) (src : List ℕ)
    → RingIsValid r
    → ring_available r + length src < ring_size
    → (r' : Ring) × (write r src ≡ some r') × RingIsValid r' × (contents r' ≡ contents r ++ src)
write_room r src v h = some-Written r src (write r src) (
    subst (IsQueue (write r src))
      (queue_write_room (contents r) src (omega (arith, length-contents r)))
      (write-IsQueue r src v (omega arith)))

-- The loop of `write`, with so many turns of the transmitter at most while it sleeps.
pub wait_write : ℕ → Ring → List ℕ → Option Ring
wait_write zero r src = write r src
wait_write (suc n) r src = elim (write r src) [
  | some r' ↦ some r'
  | none ↦ wait_write n (tx_chunk r).1 src
]

drop_add : (n m : ℕ) (xs : List ℕ) → drop (n + m) xs ≡ drop m (drop n xs)
drop_add zero m xs = ap (λ k. drop k xs) (omega arith)
drop_add (suc n) m [] = drop_all (suc n + m) [] (omega arith) ∙ sym (drop_all m [] (omega arith))
drop_add (suc n) m (x ∷ xs) =
    let shift : suc n + m ≡ suc (n + m) = omega arith in
    ap (λ k. drop k (x ∷ xs)) shift ∙ drop_add n m xs

drop_chunks :
    (k : ℕ) (xs : List ℕ)
    → drop (suc k * chunk_bytes) xs ≡ drop (k * chunk_bytes) (drop chunk_bytes xs)
drop_chunks k xs = ap (λ n. drop n xs) (omega arith) ∙ drop_add chunk_bytes (k * chunk_bytes) xs

none-IsQueue : (w : Option Ring) → IsQueue w none → w ≡ none
none-IsQueue none h = refl
none-IsQueue (some r) h = absurd h

queue_write_full : (q src : List ℕ) → ring_size ≤ length q + length src → queue_write q src ≡ none
queue_write_full q src h = elim (Bool-cases (leb ring_size (length q + length src))) [
  | inl e ↦ rw e refl
  | inr e ↦ absurd (omega (arith, leb-false→lt ring_size (length q + length src) e))
]

write_full :
    (r : Ring) (src : List ℕ)
    → RingIsValid r
    → length src < ring_size
    → ring_size ≤ ring_available r + length src
    → write r src ≡ none
write_full r src v small h = none-IsQueue (write r src) (
    subst (IsQueue (write r src))
      (queue_write_full (contents r) src (omega (arith, length-contents r)))
      (write-IsQueue r src v (omega arith)))

-- What follows a turn of `write`.
abbrev after : ℕ → Ring → List ℕ → Option Ring → Option Ring
after n r src w = elim w [ some r' ↦ some r' | none ↦ wait_write n (tx_chunk r).1 src ]

wait_write_turns :
    (n : ℕ) (r : Ring) (src : List ℕ)
    → RingIsValid r
    → length src < ring_size
    → ring_available r + length src < ring_size + n * chunk_bytes
    → (r' : Ring) × (k : ℕ) × (wait_write n r src ≡ some r')
      × (k ≤ n)
      × RingIsValid r'
      × (contents r' ≡ drop (k * chunk_bytes) (contents r) ++ src)
unfolding wait_write
wait_write_turns zero r src v small h =
    let (r', e, valid, same) = write_room r src v (omega arith) in
    (r', 0, e, omega arith, valid, same)
wait_write_turns (suc n) r src v small h =
    elim (Bool-cases (leb ring_size (ring_available r + length src))) [
      | inr e ↦
          let (r', done, valid, same) =
            write_room r src v
              (omega (arith, leb-false→lt ring_size (ring_available r + length src) e)) in
          (r', 0, ap (after n r src) done, omega arith, valid, same)
      | inl e ↦
          let full =
            write_full r src v small (leb→le ring_size (ring_available r + length src) e) in
          let (out, valid, left) = tx_chunk-ChunkIsNext r v in
          let less : ring_available (tx_chunk r).1 ≡ ring_available r - chunk_bytes = omega (
            arith,
            length-contents (tx_chunk r).1,
            ap length left,
            length-contents r,
            length-drop chunk_bytes (contents r),
          ) in
          let (r', k, done, few, valid', same) =
            wait_write_turns n (tx_chunk r).1 src valid small (omega arith) in
          (
            r',
            suc k,
            ap (after n r src) full ∙ done,
            omega arith,
            valid',
            same
                ∙ ap (◌++ src)
                    (ap (drop (k * chunk_bytes)) left ∙ sym (drop_chunks k (contents r))),
          )
    ]

-- A `write` of less than the size of the ring, on a ring with both positions in bounds, ends after at most 256
-- turns of the transmitter, and its bytes then follow what waited, less the chunks that were sent.
pub wait_write_lem :
    (r : Ring) (src : List ℕ)
    → RingIsValid r
    → length src < ring_size
    → (r' : Ring) × (k : ℕ) × (wait_write 256 r src ≡ some r')
      × (k ≤ 256)
      × RingIsValid r'
      × (contents r' ≡ drop (k * chunk_bytes) (contents r) ++ src)
wait_write_lem r src v small =
    wait_write_turns 256 r src v small (omega (arith, (ring_available_lem r v).0))
