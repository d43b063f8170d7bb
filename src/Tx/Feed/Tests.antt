-- ===== src/Tx/Feed/Tests.antt =====
-- Instances for the producer's side of the ring.
use site_sim.Base.{
  ℕ, ◌≡◌, refl, ap, List, [], ◌∷◌, ◌++◌, map, some, true, replicate, All, IsByte, arith,
}
use site_sim.P25.C4fm.{modulate}
use site_sim.P25.C4fm.Samples.{numbers}
use site_sim.P25.Frame.Receive.{build_frame-receive}
use site_sim.Tx.Control.{Channel, round_frames}
use site_sim.Tx.Ring.{ring_available}
use site_sim.Tx.Ring.Refine.{contents}
use site_sim.Tx.Feed.{Feed, send_frame, Reach, begins, here, next}
use site_sim.Tx.Feed.Room.{send_frame_never_waits}

-- A ring that is half full, whose bytes wrap around.
abbrev feed : Feed ℕ ℕ
feed = record {
  modulator = record {
    poly = replicate 500 (1 ∷ []);
    history = replicate 9 0;
    hist_pos = 0;
    phase = 0;
  };
  ring = record { cell = λ i. 7; wpos = 2097151; rpos = 4194303 };
  frames = [];
}

abbrev channel : Channel
channel = record {
  running = true;
  tsbk_queue = [];
  log = [];
  frame_count = 0;
  sys_idx = 0;
  frame_n = 0;
}

abbrev block : List ℕ
block = replicate 12 0xA5

block-bytes : All IsByte block
block-bytes = omega arith

abbrev frame : List ℕ
frame = (build_frame-receive 0x293 block refl block-bytes).0

frame-built : round_frames 0x293 block channel ≡ map some (frame ∷ [])
unfolding round_frames
frame-built = ap (λ x. x ∷ []) (build_frame-receive 0x293 block refl block-bytes).2

abbrev begun : Feed ℕ ℕ
begun = record feed { frames = frame ∷ [] }

begun-Reach : Reach numbers feed begun
unfolding ring_available
begun-Reach =
    next here
      (begins feed 0x293 block channel (frame ∷ []) refl (omega arith) refl block-bytes frame-built)

send_frame_never_waits_example :
    (h : Feed ℕ ℕ) × (send_frame numbers begun frame [] ≡ some h)
    × (contents h.ring ≡ contents begun.ring ++ (modulate numbers begun.modulator frame).0)
unfolding ring_available
send_frame_never_waits_example =
    send_frame_never_waits numbers frame [] (omega arith) refl refl (omega arith) begun-Reach refl
