-- ===== src/Tx/Feed.antt =====
-- The producer's side of the ring: the back-off of `producerThread` and `sendFrame` of
-- src/tx/ControlChannel.cpp, with the modulator of src/p25/C4FM.cpp and the ring of src/tx/SoapyTx.cpp.
pub mod Room
pub mod Producer
mod Tests
use site_sim.Base.{ℕ, ◌/◌, ◌≤◌, ◌≡◌, length, All, IsByte, List, [], ◌∷◌, map, Option, none, some}
use site_sim.P25.C4fm.{Arith, Modulator, modulate}
use site_sim.Tx.Control.{Channel, round_frames}
use site_sim.Tx.Ring.{Ring, ring_size, ring_available, write, tx_chunk, tx_drain}

-- The modulator, the ring, and the frames of the round that are not sent yet.
pub record Feed (Float Double : Type 0) : Type 0 where
  pub modulator : Modulator Float Double
  pub ring : Ring
  pub frames : List (List ℕ)

module _ {Float Double : Type 0} (a : Arith Float Double) where
  abbrev pub sent :
      Feed Float Double
      → List (List ℕ)
      → Modulator Float Double
      → Option Ring
      → Option (Feed Float Double)
  sent f frames modulator none = none
  sent f frames modulator (some ring) =
      some (record { modulator = modulator; ring = ring; frames = frames })

  -- A turn of `sendFrame` at the first frame; `none` if its `write` sleeps.
  pub send_frame : Feed Float Double → List ℕ → List (List ℕ) → Option (Feed Float Double)
  send_frame f dibits frames =
      let (iq, modulator) = modulate a f.modulator dibits in
      sent f frames modulator (write f.ring iq)

  -- The turns of the producer's and the transmitter's thread. A round begins when the ring is at most
  -- half full, with the frames of one block of twelve bytes.
  pub data Step : Feed Float Double → Feed Float Double → Type 0 where
    begins :
        (f : Feed Float Double) (nac : ℕ) (tsbk : List ℕ) (c : Channel) (frames : List (List ℕ))
        → f.frames ≡ []
        → ring_available f.ring ≤ ring_size / 2
        → length tsbk ≡ 12
        → All IsByte tsbk
        → round_frames nac tsbk c ≡ map some frames
        → Step f (record f { frames = frames })
    sends :
        (f g : Feed Float Double) (dibits : List ℕ) (frames : List (List ℕ))
        → f.frames ≡ dibits ∷ frames
        → send_frame f dibits frames ≡ some g
        → Step f g
    transmits : (f : Feed Float Double) → Step f (record f { ring = (tx_chunk f.ring).1 })
    drains : (f : Feed Float Double) → Step f (record f { ring = tx_drain f.ring })

  pub data Reach (f : Feed Float Double) : Feed Float Double → Type 0 where
    here : Reach f f
    next : {g h : Feed Float Double} → Reach f g → Step g h → Reach f h
