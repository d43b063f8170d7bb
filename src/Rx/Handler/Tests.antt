-- ===== src/Rx/Handler/Tests.antt =====
-- Instances for `handleIspTsbk` of src/rx/RxPipeline.cpp.
use site_sim.Base.{ℕ, ◌≡◌, List, [], ◌∷◌, ◌++◌, some, true, map, replicate, refl, arith}
use site_sim.Base.Int.{pos}
use site_sim.P25.Tsbk.Block.{build_tsbk}
use site_sim.P25.Tsbk.Block.Parse.{IsBlock}
use site_sim.P25.Tsbk.Messages.Decode.{decode_message, grp_aff_rsp, u_reg_rsp}
use site_sim.Tx.Control.{Channel, Clock, sys_tsbks}
use site_sim.Tx.Control.Samples.{whole, site}
use site_sim.Tx.Control.Run.{Event, round, request}
use site_sim.Tx.Control.Air.{Heard, block, receive_frame, run_frames}
use site_sim.Rx.Handler.{handle_isp_tsbk, isp_grp_aff_q, isp_u_reg_req}
use site_sim.Rx.Handler.Logged.{said, handle_isp_tsbk-said}
use site_sim.Rx.Handler.Heard.{affiliation_heard, registration_heard}

abbrev clock : Clock
clock = record {
  utc = record { year = 125; mon = 11; mday = 31; hour = 23; min = 59; sec = 58 };
  has_gmtoff = true;
  gmtoff = pos 3600;
}

-- A channel at the start of a burst with one response waiting.
abbrev channel : Channel
channel = record {
  running = true;
  tsbk_queue = (1 ∷ []) ∷ [];
  log = [];
  frame_count = 5;
  sys_idx = 1;
  frame_n = 5;
}

-- The unit 0x123456 asks for the group 200.
abbrev request_args : ℕ
request_args = 0xC8123456

-- A block that waits in a channel at the start of a burst.
abbrev waiting : List ℕ
waiting = 0xAB ∷ replicate 11 0

waiting-IsBlock : IsBlock waiting
waiting-IsBlock = record { size = refl; bytes = omega arith }

abbrev busy : Channel
busy = record channel { tsbk_queue = waiting ∷ [] }

abbrev rounds_and_requests : List Event
rounds_and_requests = round clock ∷ round clock ∷ request waiting ∷ round clock ∷ round clock ∷ []

affiliation_heard_example :
    (rsp : List ℕ) × (before : List Heard) × (after : List Heard) × (map (receive_frame 0x293) (
        run_frames 0x293
          (sys_tsbks whole site)
          rounds_and_requests
          (handle_isp_tsbk 0x2D1 isp_grp_aff_q
            (build_tsbk true isp_grp_aff_q 0 request_args)
            busy).0)
      ≡ map some (before ++ block rsp ∷ after))
    × (decode_message rsp ≡ some (grp_aff_rsp 0 0 200 200 0x123456))
affiliation_heard_example =
    affiliation_heard whole site rounds_and_requests (waiting-IsBlock, tt) true 0 request_args busy
      (waiting-IsBlock, tt) (omega arith) (omega arith) (omega arith)

registration_heard_example :
    (rsp : List ℕ) × (before : List Heard) × (after : List Heard) × (map (receive_frame 0x293) (
        run_frames 0x293
          (sys_tsbks whole site)
          rounds_and_requests
          (handle_isp_tsbk 0x2D1 isp_u_reg_req
            (build_tsbk true isp_u_reg_req 0 request_args)
            busy).0)
      ≡ map some (before ++ block rsp ∷ after))
    × (decode_message rsp ≡ some (u_reg_rsp 1 0x2D1 0x123456 0x123456))
registration_heard_example =
    registration_heard whole site rounds_and_requests (waiting-IsBlock, tt) true 0 request_args busy
      (waiting-IsBlock, tt) (omega arith) (omega arith) (omega arith)

-- A channel with no room.
abbrev full : Channel
full = record channel { tsbk_queue = replicate 128 [] }

handle_isp_tsbk-said_example :
    let raw = build_tsbk true isp_grp_aff_q 0 request_args in
    ((handle_isp_tsbk 1 isp_grp_aff_q raw channel).1 ≡ said isp_grp_aff_q request_args ∷ [])
    × (handle_isp_tsbk 1 isp_grp_aff_q raw full ≡ (full, said isp_grp_aff_q request_args ∷ []))
handle_isp_tsbk-said_example =
    handle_isp_tsbk-said 1 true isp_grp_aff_q 0 request_args channel full (omega arith)
