-- ===== src/Tx/Feed/Producer/Ends.antt =====
-- The producer of src/tx/ControlChannel.cpp ends once it is told to stop.
use site_sim.Base.{
  ℕ, suc, ◌+◌, ◌-◌, ◌/◌, ◌≤◌, ◌≡◌, refl, sym, subst, ap, List, [], ◌∷◌, some, Bool, Bool-cases, inl,
  inr, true, false, length, ltb, ltb-false→le, if◌then◌else◌, arith,
}
use site_sim.P25.C4fm.{Arith, osr}
use site_sim.Tx.Ring.{ring_size, ring_available, tx_chunk, tx_drain}
use site_sim.Tx.Ring.Refine.{RingIsValid}
use site_sim.Tx.Feed.{Feed, Step}
use site_sim.Tx.Feed.Room.{AreFrames, IsRoomy, send_frame_room, Step-IsRoomy}
use site_sim.Tx.Feed.Producer.{
  Phase, tests, backs_off, slept, sending, ended, Producer, Turn, produces, transmits, drains,
  sent_or_waits, send_next, produce, run_turns,
}

-- The producer's turns bring at most two frames of 180 dibits.
abbrev pub TurnsFit : List Turn → Type 0
TurnsFit [] = Unit
TurnsFit (produces frames ∷ turns) = AreFrames frames × (length frames ≤ 2) × TurnsFit turns
TurnsFit (transmits ∷ turns) = TurnsFit turns
TurnsFit (drains ∷ turns) = TurnsFit turns

-- How many turns are the producer's.
abbrev pub own_turns : List Turn → ℕ
own_turns [] = 0
own_turns (produces frames ∷ turns) = suc (own_turns turns)
own_turns (transmits ∷ turns) = own_turns turns
own_turns (drains ∷ turns) = own_turns turns

-- How many turns are left at most, once the flag is cleared.
abbrev rank : Phase → ℕ → ℕ
rank tests n = 1
rank backs_off n = 5
rank slept n = 1
rank sending n = n + 2
rank ended n = 0

module _ {Float Double : Type 0} (a : Arith Float Double) where
  -- A turn that keeps room and comes nearer to the end.
  record Good (running : Bool) (phase : Phase) (f : Feed Float Double) (p : Producer Float Double)
      : Type 0 where
    roomy : IsRoomy a p.feed
    nearer :
        running ≡ false → rank p.phase (length p.feed.frames) ≤ rank phase (length f.frames) - 1

  sent-Good :
      (running : Bool) (f : Feed Float Double) (frames : List (List ℕ))
      → IsRoomy a f
      → f.frames ≡ frames
      → Good running sending f (send_next a f frames)
  sent-Good running f [] roomy h = record { roomy = roomy; nearer = λ off. omega arith }
  sent-Good running f (dibits ∷ frames) roomy h =
      let (g, done, roomy', same, rest) = send_frame_room a f dibits frames roomy h in
      let good : Good running sending f (sent_or_waits a f (some g)) = record {
        roomy = roomy';
        nearer = λ off. omega (arith, ap length rest, ap length h);
      } in
      subst (λ w. Good running sending f (sent_or_waits a f w)) (sym done) good

  flag-Good :
      (running : Bool) (phase : Phase) (f : Feed Float Double)
      → IsRoomy a f
      → Good running phase f (record { phase = if running then backs_off else ended; feed = f })
  flag-Good true phase f roomy = record { roomy = roomy; nearer = λ off. cc }
  flag-Good false phase f roomy = record { roomy = roomy; nearer = λ off. omega arith }

  produce-Good :
      (running : Bool) (frames : List (List ℕ)) (phase : Phase) (f : Feed Float Double)
      → AreFrames frames
      → length frames ≤ 2
      → IsRoomy a f
      → Good running phase f (produce a running frames phase f)
  unfolding produce
  produce-Good running frames tests f sizes two roomy = flag-Good running tests f roomy
  produce-Good running frames backs_off f sizes two roomy =
      elim (Bool-cases (ltb (ring_size / 2) (ring_available f.ring))) [
        | inl e ↦ rw e (record { roomy = roomy; nearer = λ off. omega arith })
        | inr e ↦ rw e (record {
          roomy = record {
            valid = roomy.valid;
            filter = roomy.filter;
            sizes = sizes;
            few = two;
            room = omega (arith, ltb-false→le (ring_size / 2) (ring_available f.ring) e);
          };
          nearer = λ off. omega arith;
        })
      ]
  produce-Good running frames slept f sizes two roomy = flag-Good running slept f roomy
  produce-Good running frames sending f sizes two roomy = sent-Good running f f.frames roomy refl
  produce-Good running frames ended f sizes two roomy = record {
    roomy = roomy;
    nearer = λ off. omega arith;
  }

  -- What a schedule keeps and how near it comes.
  record Ran (running : Bool) (turns : List Turn) (p q : Producer Float Double) : Type 0 where
    still_roomy : IsRoomy a q.feed
    near :
        running ≡ false
        → rank q.phase (length q.feed.frames)
          ≤ rank p.phase (length p.feed.frames) - own_turns turns

  run_turns-Ran :
      (running : Bool) (turns : List Turn) (p : Producer Float Double)
      → TurnsFit turns
      → IsRoomy a p.feed
      → Ran running turns p (run_turns a running turns p)
  unfolding run_turns
  run_turns-Ran running [] p fit roomy = record { still_roomy = roomy; near = λ off. omega arith }
  run_turns-Ran running (produces frames ∷ turns) p (sizes, two, fit) roomy =
      let good = produce-Good running frames p.phase p.feed sizes two roomy in
      let rest =
        run_turns-Ran running turns (produce a running frames p.phase p.feed) fit good.roomy in
      record {
        still_roomy = rest.still_roomy;
        near = λ off. omega (arith, good.nearer off, rest.near off);
      }
  run_turns-Ran running (transmits ∷ turns) p fit roomy =
      let rest =
        run_turns-Ran running turns
          (record p { feed = record p.feed { ring = (tx_chunk p.feed.ring).1 } }) fit
          (Step-IsRoomy a (Step.transmits p.feed) roomy) in
      record { still_roomy = rest.still_roomy; near = rest.near }
  run_turns-Ran running (drains ∷ turns) p fit roomy =
      let rest =
        run_turns-Ran running turns
          (record p { feed = record p.feed { ring = tx_drain p.feed.ring } }) fit
          (Step-IsRoomy a (Step.drains p.feed) roomy) in
      record { still_roomy = rest.still_roomy; near = rest.near }

  rank_zero : (phase : Phase) (n : ℕ) → rank phase n ≡ 0 → phase ≡ ended
  rank_zero tests n h = absurd (omega (arith, h))
  rank_zero backs_off n h = absurd (omega (arith, h))
  rank_zero slept n h = absurd (omega (arith, h))
  rank_zero sending n h = absurd (omega (arith, h))
  rank_zero ended n h = refl

  rank_max : (phase : Phase) (n : ℕ) → n ≤ 2 → rank phase n ≤ 5
  rank_max tests n h = omega arith
  rank_max backs_off n h = omega arith
  rank_max slept n h = omega arith
  rank_max sending n h = omega arith
  rank_max ended n h = omega arith

  -- From a ring at most half full, with both positions in bounds, a filter of 500 parts and no frame
  -- waiting: after any turns with `m_running` set, once it is cleared the thread is at its end after any
  -- turns of which five are the producer's, even if the transmitter takes none.
  pub run_turns_end :
      (before after : List Turn) (f : Feed Float Double)
      → TurnsFit before
      → TurnsFit after
      → RingIsValid f.ring
      → length f.modulator.poly ≡ osr
      → f.frames ≡ []
      → ring_available f.ring ≤ ring_size / 2
      → 5 ≤ own_turns after
      → (run_turns a false after
          (run_turns a true before (record { phase = tests; feed = f }))).phase
        ≡ ended
  run_turns_end before after f fit fit' valid filter none_wait half enough =
      let count : length f.frames ≡ 0 = ap length none_wait in
      let first : IsRoomy a f = record {
        valid = valid;
        filter = filter;
        sizes = subst AreFrames (sym none_wait) tt;
        few = omega (arith, count);
        room = omega (arith, count);
      } in
      let p : Producer Float Double = record { phase = tests; feed = f } in
      let ran = run_turns-Ran true before p fit first in
      let q = run_turns a true before p in
      let stopped = run_turns-Ran false after q fit' ran.still_roomy in
      let zero_left = stopped.near refl in
      rank_zero _ (length (run_turns a false after q).feed.frames)
        (omega (arith, zero_left, rank_max q.phase (length q.feed.frames) ran.still_roomy.few))
