-- ===== src/Tx/Ring/Stream.antt =====
-- Writes of the producer and turns of the transmitter thread of src/tx/SoapyTx.cpp in any order.
use site_sim.Base.{
  ℕ, ◌-◌, ◌^◌, ◌<◌, ◌≡◌, refl, ap, ap₂, ◌∙◌, List, [], ◌∷◌, ◌++◌, Option, none, some, length, take,
  drop, replicate,
}
use site_sim.Tx.Ring.{Ring, write, tx_chunk, chunk_bytes}
use site_sim.Tx.Ring.Refine.{
  RingIsValid, contents, IsQueue, queue_write, write-IsQueue, tx_chunk-ChunkIsNext,
}

-- A turn of `write` by the producer, or a turn of `txThread`.
pub data Move : Type 0 where
  produce : List ℕ → Move
  transmit : Move

-- What a turn of `write` leaves: nothing new if it has to wait.
abbrev pub after {ℓ} : {A : Type ℓ} → A → Option A → A
after a none = a
after a (some b) = b

-- The ring after the moves and the chunks that the driver is given, the first in front.
abbrev pub run : List Move → Ring → List (List ℕ) × Ring
run [] r = ([], r)
run (produce src ∷ moves) r = run moves (after r (write r src))
run (transmit ∷ moves) r =
    let (out, r') = tx_chunk r in let (outs, r'') = run moves r' in (out ∷ outs, r'')

-- The same on a plain queue of bytes.
abbrev pub queue_run : List Move → List ℕ → List (List ℕ) × List ℕ
queue_run [] q = ([], q)
queue_run (produce src ∷ moves) q = queue_run moves (after q (queue_write q src))
queue_run (transmit ∷ moves) q =
    let (outs, q') = queue_run moves (drop chunk_bytes q) in
    ((take chunk_bytes q ++ replicate (chunk_bytes - length q) 0) ∷ outs, q')

-- Each write is of less than 2 ^ 63 bytes.
abbrev pub MovesFit : List Move → Type 0
MovesFit [] = Unit
MovesFit (produce src ∷ moves) = (length src < 2 ^ 63) × MovesFit moves
MovesFit (transmit ∷ moves) = MovesFit moves

after-IsQueue :
    (r : Ring) (w : Option Ring) (q : Option (List ℕ))
    → RingIsValid r
    → IsQueue w q
    → RingIsValid (after r w) × (contents (after r w) ≡ after (contents r) q)
after-IsQueue r none none v h = (v, refl)
after-IsQueue r none (some q) v h = absurd h
after-IsQueue r (some r') none v h = absurd h
after-IsQueue r (some r') (some q) v h = h

-- From a ring with both positions in bounds, writes of less than 2 ^ 63 bytes and turns of the
-- transmitter in any order give the driver the same chunks as a plain queue of bytes does, and leave
-- a ring with its positions in bounds that holds what the queue holds.
pub run-queue_run :
    (moves : List Move) (r : Ring)
    → RingIsValid r
    → MovesFit moves
    → ((run moves r).0 ≡ (queue_run moves (contents r)).0)
      × RingIsValid (run moves r).1
      × (contents (run moves r).1 ≡ (queue_run moves (contents r)).1)
run-queue_run [] r v fit = (refl, v, refl)
run-queue_run (produce src ∷ moves) r v fit =
    let (valid, next) =
      after-IsQueue r (write r src) (queue_write (contents r) src) v
        (write-IsQueue r src v fit.0) in
    let (outs, valid', left) = run-queue_run moves (after r (write r src)) valid fit.1 in
    (
      outs ∙ ap (λ q. (queue_run moves q).0) next,
      valid',
      left ∙ ap (λ q. (queue_run moves q).1) next,
    )
run-queue_run (transmit ∷ moves) r v fit =
    let (out, valid, next) = tx_chunk-ChunkIsNext r v in
    let (outs, valid', left) = run-queue_run moves (tx_chunk r).1 valid fit in
    (
      ap₂ ◌∷◌ out (outs ∙ ap (λ q. (queue_run moves q).0) next),
      valid',
      left ∙ ap (λ q. (queue_run moves q).1) next,
    )
