-- ===== src/Tx/Control/Tests.antt =====
-- Instances for src/tx/ControlChannel.cpp.
use site_sim.Base.{
  ℕ, ◌+◌, ◌*◌, ◌^◌, ◌≤◌, ◌<◌, ◌≡◌, List, [], ◌∷◌, ◌++◌, true, arith, map, some, refl, replicate,
  get_or,
}
use site_sim.Base.Int.{pos}
use site_sim.P25.Tsbk.Block.Parse.{IsBlock}
use site_sim.Tx.Control.{Channel, Clock, act, sys_tsbks}
use site_sim.Tx.Control.Samples.{whole, site}
use site_sim.Tx.Control.Air.{Heard, block, receive_frame, run_frames, on_the_air, receive-run}
use site_sim.Tx.Control.Air.Site.{site_heard}
use site_sim.Tx.Control.Run.{Event, round, request, run, accepted, rounds, responses, broadcasts}
use site_sim.Tx.Control.Queue.{ChannelIsValid, run-ChannelIsValid, responses-accepted}
use site_sim.Tx.Control.Rotation.{rotation}
use site_sim.Tx.Control.Rotation.Blocks.{AreNamed, run-rotation}

abbrev clock : Clock
clock = record {
  utc = record { year = 125; mon = 11; mday = 31; hour = 23; min = 59; sec = 58 };
  has_gmtoff = true;
  gmtoff = pos 3600;
}

-- A channel in the middle of a burst with one response waiting.
abbrev channel : Channel
channel = record {
  running = true;
  tsbk_queue = (1 ∷ []) ∷ [];
  log = act ∷ act ∷ [];
  frame_count = 7;
  sys_idx = 3;
  frame_n = 7;
}

abbrev static_tsbks : List (List ℕ)
static_tsbks = (0x3D ∷ []) ∷ (0x3B ∷ []) ∷ (0x3A ∷ []) ∷ (0x3C ∷ []) ∷ []

abbrev events : List Event
events = round clock ∷ request (2 ∷ []) ∷ round clock ∷ round clock ∷ round clock ∷ []

channel-IsValid : ChannelIsValid channel
channel-IsValid = omega arith

run-ChannelIsValid_example : ChannelIsValid (run static_tsbks events channel).1
run-ChannelIsValid_example = run-ChannelIsValid static_tsbks events channel channel-IsValid

responses-accepted_example :
    responses (run static_tsbks events channel).0 ++ (run static_tsbks events channel).1.tsbk_queue
    ≡ channel.tsbk_queue ++ accepted static_tsbks events channel
responses-accepted_example = responses-accepted static_tsbks events channel

run-rotation_example :
    let (sent, c') = run static_tsbks events channel in
    (n : ℕ) × (broadcasts sent ≡ rotation channel.sys_idx n)
    × AreNamed static_tsbks events sent
    × (rounds events ≤ 5 * n + 4)
    × (c'.sys_idx ≡ channel.sys_idx + n)
    × (c'.sys_idx < 2 ^ 31)
run-rotation_example = run-rotation static_tsbks events channel (omega arith) (omega arith)

-- A block of twelve bytes, and a channel in the middle of a burst where it waits.
abbrev grant : List ℕ
grant = 0x80 ∷ 0x00 ∷ 0x00 ∷ 0x10 ∷ 0x0A ∷ 0x00 ∷ 0x65 ∷ 0x00 ∷ 0x04 ∷ 0xD2 ∷ 0x11 ∷ 0x22 ∷ []

grant-IsBlock : IsBlock grant
grant-IsBlock = record { size = refl; bytes = omega arith }

abbrev granting : Channel
granting = record channel { tsbk_queue = grant ∷ [] }

abbrev granted : List Event
granted = round clock ∷ request grant ∷ round clock ∷ round clock ∷ []

receive-run_example :
    map (receive_frame 0x293) (run_frames 0x293 (sys_tsbks whole site) granted granting)
    ≡ map some (on_the_air 7 (map (λ s. s.1) (run (sys_tsbks whole site) granted granting).0))
receive-run_example =
    receive-run whole site granted granting (grant-IsBlock, tt) (grant-IsBlock, tt) (omega arith)

-- Five bursts with no request.
abbrev bursts : List Event
bursts = replicate 25 (round clock)

site_heard_example :
    (before : List Heard) × (after : List Heard) × (map
        (receive_frame 0x293)
        (run_frames 0x293 (sys_tsbks whole site) bursts granting)
      ≡ map some (before ++ block (get_or (sys_tsbks whole site) 1 []) ∷ after))
site_heard_example =
    site_heard whole site bursts granting 1 (omega arith) (grant-IsBlock, tt) tt (omega arith)
      (omega arith)
