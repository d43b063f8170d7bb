-- ===== src/Tx/Feed/Room.antt =====
-- The producer of src/tx/ControlChannel.cpp never waits in `write`.
use site_sim.Base.{
  ℕ, ◌+◌, ◌*◌, ◌/◌, ◌%◌, ◌≤◌, ◌≡◌, refl, sym, subst, ap, ap₂, ◌∙◌, inl, inr, List, [], ◌∷◌, ◌++◌,
  map, some, Bool, Bool-cases, length, length-append, length-drop, All, IsByte, u64, ◌==◌,
  if◌then◌else◌, arith,
}
use site_sim.P25.C4fm.{Arith, osr, modulate}
use site_sim.P25.C4fm.Delay.{length-modulate, modulate-poly}
use site_sim.P25.Frame.{build_frame, build_tdu_frame}
use site_sim.P25.Frame.Receive.{build_frame-receive, build_tdu_frame-receive}
use site_sim.Tx.Control.{Channel, round_frames, burst_len}
use site_sim.Tx.Ring.{Ring, ring_size, chunk_bytes, ring_available, tx_chunk, tx_drain}
use site_sim.Tx.Ring.Refine.{
  RingIsValid, contents, length-contents, tx_chunk-ChunkIsNext, tx_drain_lem,
}
use site_sim.Tx.Ring.Progress.{write_room}
use site_sim.Tx.Feed.{
  Feed, sent, send_frame, Step, begins, sends, transmits, drains, Reach, here, next,
}

-- The frames that wait to be sent are of 180 dibits.
abbrev pub AreFrames : List (List ℕ) → Type 0
AreFrames frames = All (λ dibits. length dibits ≡ 180) frames

map-some-injective : (xs ys : List (List ℕ)) → map some xs ≡ map some ys → xs ≡ ys
map-some-injective [] [] h = refl
map-some-injective [] (y ∷ ys) h = cc
map-some-injective (x ∷ xs) [] h = cc
map-some-injective (x ∷ xs) (y ∷ ys) h = ap₂ ◌∷◌ (cc) (map-some-injective xs ys (cc))

-- The frames of a round are one or two.
round_frames-AreFrames :
    (nac : ℕ) (tsbk : List ℕ) (c : Channel) (frames : List (List ℕ))
    → length tsbk ≡ 12
    → All IsByte tsbk
    → round_frames nac tsbk c ≡ map some frames
    → AreFrames frames × (length frames ≤ 2)
unfolding round_frames
round_frames-AreFrames nac tsbk c frames len bytes h =
    let (block, payload, built, _, _, _, block_size) = build_frame-receive nac tsbk len bytes in
    let (tdu, ended, _, _, tdu_size) = build_tdu_frame-receive nac in
    let frames_if =
      λ (b : Bool). build_frame nac tsbk ∷ (if b then build_tdu_frame nac ∷ [] else []) in
    elim (Bool-cases (u64 (c.frame_n + 1) % burst_len == 0)) [
      | inl e ↦
          let two =
            map-some-injective (block ∷ tdu ∷ []) frames
              (sym (ap₂ (λ x y. x ∷ y ∷ []) built ended) ∙ sym (ap frames_if e) ∙ h) in
          subst (λ l. AreFrames l × (length l ≤ 2)) two ((block_size, (tdu_size, tt)), omega arith)
      | inr e ↦
          let one =
            map-some-injective (block ∷ []) frames
              (sym (ap (λ x. x ∷ []) built) ∙ sym (ap frames_if e) ∙ h) in
          subst (λ l. AreFrames l × (length l ≤ 2)) one ((block_size, tt), omega arith)
    ]

some-feed : {Float Double : Type 0} (f g : Feed Float Double) → some f ≡ some g → f ≡ g
some-feed f g h = cc

module _ {Float Double : Type 0} (a : Arith Float Double) where
  -- The ring has room for the frames that wait.
  pub record IsRoomy (f : Feed Float Double) : Type 0 where
    pub valid : RingIsValid f.ring
    pub filter : length f.modulator.poly ≡ osr
    pub sizes : AreFrames f.frames
    pub few : length f.frames ≤ 2
    pub room : ring_available f.ring + 180000 * length f.frames ≤ ring_size / 2 + 360000

  -- A turn at a frame.
  pub send_frame_room :
      (f : Feed Float Double) (dibits : List ℕ) (frames : List (List ℕ))
      → IsRoomy f
      → f.frames ≡ dibits ∷ frames
      → (g : Feed Float Double) × (send_frame a f dibits frames ≡ some g)
        × IsRoomy g
        × (contents g.ring ≡ contents f.ring ++ (modulate a f.modulator dibits).0)
        × (g.frames ≡ frames)
  unfolding send_frame
  send_frame_room f dibits frames roomy h =
      let (size, sizes) = subst AreFrames h roomy.sizes in
      let iq = (modulate a f.modulator dibits).0 in
      let bytes : length iq ≡ 180000 =
        length-modulate a dibits f.modulator roomy.filter ∙ ap (λ n. 1000 * n) size in
      let count : length f.frames ≡ length frames + 1 = ap length h ∙ omega arith in
      let (r', done, valid, same) =
        write_room f.ring iq roomy.valid (omega (arith, roomy.room, bytes, count)) in
      (
        record { modulator = (modulate a f.modulator dibits).1; ring = r'; frames = frames },
        ap (sent a f frames (modulate a f.modulator dibits).1) done,
        record {
          valid = valid;
          filter = ap length (modulate-poly a dibits f.modulator) ∙ roomy.filter;
          sizes = sizes;
          few = omega (arith, count, roomy.few);
          room = omega (
            arith,
            roomy.room,
            bytes,
            count,
            length-contents r',
            length-contents f.ring,
            ap length same,
            length-append (contents f.ring) iq,
          );
        },
        same,
        refl,
      )

  pub emptier :
      (f : Feed Float Double) (r : Ring)
      → IsRoomy f
      → RingIsValid r
      → ring_available r ≤ ring_available f.ring
      → IsRoomy (record f { ring = r })
  emptier f r roomy valid h = record {
    valid = valid;
    filter = roomy.filter;
    sizes = roomy.sizes;
    few = roomy.few;
    room = omega (arith, roomy.room);
  }

  pub Step-IsRoomy : {f g : Feed Float Double} → Step a f g → IsRoomy f → IsRoomy g
  Step-IsRoomy (begins f nac tsbk c frames e half len bytes h) roomy =
      let (sizes, two) = round_frames-AreFrames nac tsbk c frames len bytes h in
      record {
        valid = roomy.valid;
        filter = roomy.filter;
        sizes = sizes;
        few = two;
        room = omega arith;
      }
  Step-IsRoomy (sends f g dibits frames e h) roomy =
      let (g', done, after, same, _) = send_frame_room f dibits frames roomy e in
      subst IsRoomy (some-feed g' g (sym done ∙ h)) after
  Step-IsRoomy (transmits f) roomy =
      let (out, valid, left) = tx_chunk-ChunkIsNext f.ring roomy.valid in
      emptier f (tx_chunk f.ring).1 roomy valid (
        omega (
          arith,
          length-contents (tx_chunk f.ring).1,
          length-contents f.ring,
          ap length left,
          length-drop chunk_bytes (contents f.ring),
        ))
  Step-IsRoomy (drains f) roomy =
      let (valid, left) = tx_drain_lem f.ring roomy.valid in
      emptier f (tx_drain f.ring) roomy valid (
        omega (
          arith,
          length-contents (tx_drain f.ring),
          length-contents f.ring,
          ap length left,
          length-drop 16384 (contents f.ring),
        ))

  Reach-IsRoomy : {f g : Feed Float Double} → IsRoomy f → Reach a f g → IsRoomy g
  Reach-IsRoomy roomy here = roomy
  Reach-IsRoomy roomy (next r s) = Step-IsRoomy s (Reach-IsRoomy roomy r)

  -- Whatever the order of the producer's and the transmitter's turns, and even if the transmitter takes
  -- none: from a ring at most half full, with both positions in bounds, a filter of 500 parts and no
  -- frame waiting, a frame that is to be sent is written without waiting, behind the bytes that wait.
  pub send_frame_never_waits :
      {f g : Feed Float Double} (dibits : List ℕ) (frames : List (List ℕ))
      → RingIsValid f.ring
      → length f.modulator.poly ≡ osr
      → f.frames ≡ []
      → ring_available f.ring ≤ ring_size / 2
      → Reach a f g
      → g.frames ≡ dibits ∷ frames
      → (h : Feed Float Double) × (send_frame a g dibits frames ≡ some h)
        × (contents h.ring ≡ contents g.ring ++ (modulate a g.modulator dibits).0)
  send_frame_never_waits {f = f} {g = g} dibits frames valid filter none_wait half reach e =
      let count : length f.frames ≡ 0 = ap length none_wait in
      let first : IsRoomy f = record {
        valid = valid;
        filter = filter;
        sizes = subst AreFrames (sym none_wait) tt;
        few = omega (arith, count);
        room = omega (arith, count);
      } in
      let (h, done, roomy, same, _) =
        send_frame_room g dibits frames (Reach-IsRoomy first reach) e in
      (h, done, same)
