-- ===== src/Rx/Handler/Heard.antt =====
-- The answers that `handleIspTsbk` of src/rx/RxPipeline.cpp queues, as they are heard on the air.
use mathlib.Core.List.{append_assoc}
use site_sim.Base.{
  ℕ, ◌+◌, ◌*◌, ◌%◌, ◌^◌, ◌<◌, ◌≤◌, ◌≡◌, sym, ap, ◌∙◌, List, [], ◌∷◌, ◌++◌, some, Bool, length, map,
  take, drop, take-drop, All, arith,
}
use site_sim.P25.Tsbk.Block.{build_tsbk}
use site_sim.P25.Tsbk.Block.Parse.{IsBlock}
use site_sim.P25.Tsbk.Messages.Decode.{decode_message, field, grp_aff_rsp, u_reg_rsp}
use site_sim.P25.Tsbk.Messages.Size.{build_grp_aff_rsp-IsBlock, build_u_reg_rsp-IsBlock}
use site_sim.Tx.Control.{Doubles, SiteConfig, Channel, sys, act, sys_tsbks}
use site_sim.Tx.Control.Rotation.{queue_tsbk-same}
use site_sim.Tx.Control.Run.{Event, Sent, run, rounds, responses}
use site_sim.Tx.Control.Air.{
  Heard, block, receive_frame, run_frames, on_the_air, RequestsAreBlocks, receive-run,
}
use site_sim.Tx.Control.Air.Among.{sent_blocks, IsAmong, behind, in_front}
use site_sim.Tx.Control.Air.Blocks.{queue_tsbk-AreBlocks}
use site_sim.Rx.Handler.{handle_isp_tsbk, isp_grp_aff_q, isp_u_reg_req}
use site_sim.Rx.Handler.Answer.{affiliation_answered, registration_answered}

-- A response that is sent is among what is heard.
responses-IsAmong :
    (sent : List Sent) (n : ℕ) (front : List (List ℕ)) (tsbk : List ℕ) (rest : List (List ℕ))
    → responses sent ≡ front ++ tsbk ∷ rest
    → IsAmong tsbk (on_the_air n (sent_blocks sent))
responses-IsAmong [] n [] tsbk rest h = cc h
responses-IsAmong [] n (x ∷ front) tsbk rest h = cc h
responses-IsAmong ((sys name, first) ∷ sent) n front tsbk rest h =
    behind tsbk first n (sent_blocks sent) (responses-IsAmong sent (n + 1) front tsbk rest h)
responses-IsAmong ((act, first) ∷ sent) n [] tsbk rest h =
    in_front tsbk first n (sent_blocks sent) (cc h)
responses-IsAmong ((act, first) ∷ sent) n (x ∷ front) tsbk rest h =
    behind tsbk first n (sent_blocks sent) (responses-IsAmong sent (n + 1) front tsbk rest (cc h))

module _ (sysid : ℕ) (raw : List ℕ) (c : Channel) (queued : All IsBlock c.tsbk_queue) where
  affiliation-AreBlocks :
      let c' = (handle_isp_tsbk sysid isp_grp_aff_q raw c).0 in
      All IsBlock c'.tsbk_queue × (c'.frame_n ≡ c.frame_n)
  unfolding handle_isp_tsbk
  affiliation-AreBlocks = (
    queue_tsbk-AreBlocks c _ queued (build_grp_aff_rsp-IsBlock _ _ _ _ _),
    (queue_tsbk-same c _).1,
  )

  registration-AreBlocks :
      let c' = (handle_isp_tsbk sysid isp_u_reg_req raw c).0 in
      All IsBlock c'.tsbk_queue × (c'.frame_n ≡ c.frame_n)
  unfolding handle_isp_tsbk
  registration-AreBlocks =
      (queue_tsbk-AreBlocks c _ queued (build_u_reg_rsp-IsBlock _ _ _ _), (queue_tsbk-same c _).1)

module _ {Double : Type 0} (doubles : Doubles Double) (cfg : SiteConfig Double)
    (events : List Event) (requests : RequestsAreBlocks events) where
  -- With a block in the queue that is among the first responses: the frames of the run are all heard, and it
  -- is heard among them.
  queued_heard :
      (c : Channel) (tsbk : List ℕ) (queue : List (List ℕ)) (n : ℕ)
      → All IsBlock c.tsbk_queue
      → c.frame_n + rounds events < 2 ^ 64
      → take n (responses (run (sys_tsbks doubles cfg) events c).0) ≡ queue ++ tsbk ∷ []
      → (before : List Heard) × (after : List Heard) × (map
            (receive_frame cfg.nac)
            (run_frames cfg.nac (sys_tsbks doubles cfg) events c)
          ≡ map some (before ++ block tsbk ∷ after))
  queued_heard c tsbk queue n queued small first =
      let sent = (run (sys_tsbks doubles cfg) events c).0 in
      let whole : responses sent ≡ queue ++ tsbk ∷ drop n (responses sent) =
        sym (take-drop n (responses sent))
        ∙ ap (λ xs. xs ++ drop n (responses sent)) first
        ∙ append_assoc queue (tsbk ∷ []) (drop n (responses sent)) in
      let among = responses-IsAmong sent c.frame_n queue tsbk (drop n (responses sent)) whole in
      (
        among.before,
        among.after,
        receive-run doubles cfg events c queued requests small ∙ ap (map some) among.split,
      )

  module _ (lb : Bool) (mfid args : ℕ) (c : Channel) (queued : All IsBlock c.tsbk_queue)
      (room : length c.tsbk_queue < 128) (count : c.frame_n + rounds events < 2 ^ 64)
      (long : 2 * (length c.tsbk_queue + 1) ≤ rounds events) where
    -- A site whose queue has room, asked for a group in a block of any manufacturer and any 64 argument
    -- bits, is heard to answer: in a run of two rounds or more for each block that waits and one more, with
    -- requests of twelve bytes anywhere between them, and without a wrap-around of the number of the frame,
    -- a receiver of the NAC hears every frame, and among them a block that reads as an acceptance of
    -- the group and the unit in the request.
    pub affiliation_heard :
        let c' =
          (handle_isp_tsbk cfg.sysid isp_grp_aff_q (build_tsbk lb isp_grp_aff_q mfid args) c).0 in
        (rsp : List ℕ) × (before : List Heard) × (after : List Heard) × (map
            (receive_frame cfg.nac)
            (run_frames cfg.nac (sys_tsbks doubles cfg) events c')
          ≡ map some (before ++ block rsp ∷ after))
        × (decode_message rsp
            ≡ some (grp_aff_rsp 0 0 (field args 24 16) (field args 24 16) (field args 0 24)))
    affiliation_heard =
        let (rsp, first, read) =
          affiliation_answered cfg.sysid lb mfid args c (sys_tsbks doubles cfg) events room count
            long in
        let c' =
          (handle_isp_tsbk cfg.sysid isp_grp_aff_q (build_tsbk lb isp_grp_aff_q mfid args) c).0 in
        let (good, same) =
          affiliation-AreBlocks cfg.sysid (build_tsbk lb isp_grp_aff_q mfid args) c queued in
        let (before, after, heard) =
          queued_heard c' rsp c.tsbk_queue (length c.tsbk_queue + 1) good
            (omega (arith, same, count)) first in
        (rsp, before, after, heard, read)

    -- A site whose queue has room, asked for registration in a block of any manufacturer and any 64 argument
    -- bits, is heard to answer: in a run of two rounds or more for each block that waits and one more, with
    -- requests of twelve bytes anywhere between them, and without a wrap-around of the number of the frame,
    -- a receiver of the NAC hears every frame, and among them a block that reads as the value 1, the
    -- system's identifier in 12 bits, and the unit of the request as target and source.
    pub registration_heard :
        let c' =
          (handle_isp_tsbk cfg.sysid isp_u_reg_req (build_tsbk lb isp_u_reg_req mfid args) c).0 in
        (rsp : List ℕ) × (before : List Heard) × (after : List Heard) × (map
            (receive_frame cfg.nac)
            (run_frames cfg.nac (sys_tsbks doubles cfg) events c')
          ≡ map some (before ++ block rsp ∷ after))
        × (decode_message rsp
            ≡ some (u_reg_rsp 1 (cfg.sysid % 2 ^ 12) (field args 0 24) (field args 0 24)))
    registration_heard =
        let (rsp, first, read) =
          registration_answered cfg.sysid lb mfid args c (sys_tsbks doubles cfg) events room count
            long in
        let c' =
          (handle_isp_tsbk cfg.sysid isp_u_reg_req (build_tsbk lb isp_u_reg_req mfid args) c).0 in
        let (good, same) =
          registration-AreBlocks cfg.sysid (build_tsbk lb isp_u_reg_req mfid args) c queued in
        let (before, after, heard) =
          queued_heard c' rsp c.tsbk_queue (length c.tsbk_queue + 1) good
            (omega (arith, same, count)) first in
        (rsp, before, after, heard, read)
