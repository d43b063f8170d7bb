-- ===== src/Tx/Control/Air.antt =====
-- What a subscriber hears of the frames that `producerThread` of src/tx/ControlChannel.cpp sends.
pub mod Blocks
pub mod Among
pub mod Site
use site_sim.Base.{
  ℕ, ◌+◌, ◌%◌, ◌^◌, ◌<◌, ◌≡◌, ◌≢◌, refl, sym, ap, ◌∙◌, List, [], ◌∷◌, ◌++◌, Option, none, some,
  Option-cases, inl, inr, Bool-cases, ==-true→eq, All, length, map, replicate, arith, ◌==◌, ==_iff,
  false, u64, if◌then◌else◌,
}
use site_sim.P25.Nid.{duid_tdu, duid_tsbk, encode_bch, nid_word}
use site_sim.P25.Nid.Distance.{duids-differ}
use site_sim.P25.Frame.{build_frame, build_tdu_frame}
use site_sim.P25.Frame.Receive.{
  split_frame, read_block, build_frame-receive, build_tdu_frame-receive,
}
use site_sim.P25.Tsbk.Block.Parse.{IsBlock}
use site_sim.Tx.Control.{
  Doubles, SiteConfig, Channel, round_frames, burst_len, static_sys_count, sys_tsbks, queue_tsbk,
}
use site_sim.Tx.Control.Air.Blocks.{
  sys_tsbks-AreBlocks, producer_round-IsBlock, queue_tsbk-AreBlocks,
}
use site_sim.Tx.Control.Round.{producer_round_cases}
use site_sim.Tx.Control.Rotation.{queue_tsbk-same}
use site_sim.Tx.Control.Run.{Event, round, request, Sent, producer_round, run, rounds}

-- What a frame says.
pub data Heard : Type 0 where
  block : List ℕ → Heard
  terminator : Heard

abbrev pub heard_block : Option (List ℕ) → Option Heard
heard_block none = none
heard_block (some tsbk) = some (block tsbk)

-- A frame that was split, by the identifiers of the NAC.
pub hear : ℕ → Option (ℕ × List ℕ) → Option Heard
hear nac none = none
hear nac (some (nid, payload)) =
    if nid == encode_bch (nid_word nac duid_tsbk)
    then heard_block (read_block payload)
    else if nid == encode_bch (nid_word nac duid_tdu)
    then some terminator
    else none

pub receive_frame : ℕ → Option (List ℕ) → Option Heard
receive_frame nac none = none
receive_frame nac (some dibits) = hear nac (split_frame dibits)

-- The frames of the rounds of a run.
abbrev pub run_frames : ℕ → List (List ℕ) → List Event → Channel → List (Option (List ℕ))
run_frames nac static_tsbks [] c = []
run_frames nac static_tsbks (round clock ∷ events) c =
    let (sent, c') = producer_round static_tsbks clock c in
    let rest = run_frames nac static_tsbks events c' in round_frames nac sent.1 c ++ rest
run_frames nac static_tsbks (request tsbk ∷ events) c =
    run_frames nac static_tsbks events (queue_tsbk c tsbk)

-- What is to be heard of the blocks that are sent, from a number of the frame on: each block, and a
-- terminator behind each number that is divisible by five.
abbrev pub on_the_air : ℕ → List (List ℕ) → List Heard
on_the_air n [] = []
on_the_air n (tsbk ∷ tsbks) =
    let rest = on_the_air (n + 1) tsbks in
    block tsbk ∷ (if (n + 1) % burst_len == 0 then terminator ∷ rest else rest)

receive_block :
    (nac : ℕ) (tsbk : List ℕ)
    → IsBlock tsbk
    → receive_frame nac (build_frame nac tsbk) ≡ some (block tsbk)
unfolding receive_frame hear
receive_block nac tsbk good =
    let (out, payload, built, split, read, marks, size) =
      build_frame-receive nac tsbk good.size good.bytes in
    rw (built, split, (==_iff _ _).1 refl, read) refl

receive_terminator : (nac : ℕ) → receive_frame nac (build_tdu_frame nac) ≡ some terminator
unfolding receive_frame hear
receive_terminator nac =
    let (out, built, split, marks, size) = build_tdu_frame-receive nac in
    rw (built, split, (==_iff _ _).1 refl, differ) refl
  where
    differ : (encode_bch (nid_word nac duid_tdu) == encode_bch (nid_word nac duid_tsbk)) ≡ false
    differ = elim (Bool-cases _) [
      | inl e ↦ absurd (duids-differ nac (==-true→eq _ _ e))
      | inr e ↦ e
    ]

-- Every request is a block.
abbrev pub RequestsAreBlocks : List Event → Type 0
RequestsAreBlocks [] = Unit
RequestsAreBlocks (round clock ∷ events) = RequestsAreBlocks events
RequestsAreBlocks (request tsbk ∷ events) = IsBlock tsbk × RequestsAreBlocks events

receive_round :
    (nac : ℕ) (tsbk : List ℕ) (c : Channel) (rest : List (Option (List ℕ))) (heard : List Heard)
    → IsBlock tsbk
    → c.frame_n + 1 < 2 ^ 64
    → map (receive_frame nac) rest ≡ map some heard
    → map (receive_frame nac) (round_frames nac tsbk c ++ rest)
      ≡ map some
          (block tsbk ∷ (if (c.frame_n + 1) % burst_len == 0 then terminator ∷ heard else heard))
unfolding round_frames
receive_round nac tsbk c rest heard good small later =
    elim (Bool-cases ((c.frame_n + 1) % burst_len == 0)) [
      | inl e ↦ rw (counted, e) (cc (receive_block nac tsbk good, receive_terminator nac, later))
      | inr e ↦ rw (counted, e) (cc (receive_block nac tsbk good, later))
    ]
  where
    counted : u64 (c.frame_n + 1) ≡ c.frame_n + 1
    counted = omega arith

module _ (nac : ℕ) (static_tsbks : List (List ℕ)) (four : length static_tsbks ≡ static_sys_count)
    (good : All IsBlock static_tsbks) where
  receive_run :
      (events : List Event) (c : Channel)
      → All IsBlock c.tsbk_queue
      → RequestsAreBlocks events
      → c.frame_n + rounds events < 2 ^ 64
      → map (receive_frame nac) (run_frames nac static_tsbks events c)
        ≡ map some (on_the_air c.frame_n (map (λ s. s.1) (run static_tsbks events c).0))
  receive_run [] c queued requests small = refl
  receive_run (round clock ∷ events) c queued requests small =
      let (sent, c') = producer_round static_tsbks clock c in
      let (block_sent, queued') = producer_round-IsBlock static_tsbks four good clock c queued in
      let (_, (_, counted)) = producer_round_cases static_tsbks clock c in
      let next_n : c'.frame_n ≡ c.frame_n + 1 = omega (arith, counted, small) in
      let later = receive_run events c' queued' requests (omega (arith, next_n, small)) in
      receive_round nac sent.1 c (run_frames nac static_tsbks events c')
        (on_the_air (c.frame_n + 1) (map (λ s. s.1) (run static_tsbks events c').0)) block_sent
        (omega (arith, small))
        (later
          ∙ ap (λ n. map some (on_the_air n (map (λ s. s.1) (run static_tsbks events c').0)))
              next_n)
  receive_run (request tsbk ∷ events) c queued (one, requests) small =
      let (_, same) = queue_tsbk-same c tsbk in
      receive_run events (queue_tsbk c tsbk) (queue_tsbk-AreBlocks c tsbk queued one) requests
        (omega (arith, same, small))
      ∙ ap
          (λ n.
            map some
              (on_the_air n (map (λ s. s.1) (run static_tsbks events (queue_tsbk c tsbk)).0)))
          same

-- Over rounds and requests in any order, every request a block of twelve bytes, as those that wait, and
-- the number of the frame below its wrap-around: each frame that the producer gives to the air for a site
-- is built and is heard by a receiver of the NAC. What is heard is the blocks sent, in their order,
-- with a terminator behind each frame whose number is divisible by five, and nothing else.
pub receive-run :
    {Double : Type 0} (doubles : Doubles Double) (cfg : SiteConfig Double) (events : List Event)
    (c : Channel)
    → All IsBlock c.tsbk_queue
    → RequestsAreBlocks events
    → c.frame_n + rounds events < 2 ^ 64
    → map (receive_frame cfg.nac) (run_frames cfg.nac (sys_tsbks doubles cfg) events c)
      ≡ map some (on_the_air c.frame_n (map (λ s. s.1) (run (sys_tsbks doubles cfg) events c).0))
receive-run doubles cfg events c queued requests small =
    let (four, good) = sys_tsbks-AreBlocks doubles cfg in
    receive_run cfg.nac (sys_tsbks doubles cfg) four good events c queued requests small
