-- ===== src/Rx/Handler/Answer.antt =====
-- The answers that `handleIspTsbk` of src/rx/RxPipeline.cpp queues, as the subscriber that asked
-- reads them.
use site_sim.Base.{
  ℕ, ◌+◌, ◌*◌, ◌%◌, ◌^◌, ◌<◌, ◌≡◌, ap, ◌∙◌, bit_or, List, [], ◌∷◌, ◌++◌, some, Bool, true, false,
  length, length-append, take, take_all, u8, ◌<<◌, ◌>>◌, ◌≤◌, word_bytes, arith,
}
use site_sim.Bits.{bit_or_above}
use site_sim.P25.Tsbk.Block.{build_tsbk}
use site_sim.P25.Tsbk.Messages.{build_grp_aff_rsp, build_u_reg_rsp}
use site_sim.P25.Tsbk.Messages.Decode.{decode_message, field, grp_aff_rsp, u_reg_rsp}
use site_sim.P25.Tsbk.Messages.Responses.{decode-grp_aff_rsp, decode-u_reg_rsp}
use site_sim.Tx.Control.{Channel, queue_tsbk}
use site_sim.Tx.Control.Queue.{queue_tsbk-room}
use site_sim.Tx.Control.Delivery.{responses-take}
use site_sim.Tx.Control.Run.{Event, run, rounds, responses}
use site_sim.Rx.Handler.{tgid_of, src_id_of, handle_isp_tsbk, isp_grp_aff_q, isp_u_reg_req}

module _ (lb : Bool) (opcode mfid args : ℕ) where
  pub tgid_of-build : tgid_of (build_tsbk lb opcode mfid args) ≡ field args 24 16
  unfolding tgid_of build_tsbk word_bytes
  tgid_of-build =
      omega
        (arith, bit_or_above 8 (u8 (args >> 32) << 8) (u8 (args >> 24)) (omega arith) (omega arith))

  pub src_id_of-build : src_id_of (build_tsbk lb opcode mfid args) ≡ field args 0 24
  unfolding src_id_of build_tsbk word_bytes
  src_id_of-build =
      let high = u8 (args >> 16) << 16 in
      let mid = u8 (args >> 8) << 8 in
      let upper : bit_or high mid ≡ high + mid =
        bit_or_above 16 high mid (omega arith) (omega arith) in
      rw upper
        (omega (arith, bit_or_above 8 (high + mid) (u8 (args >> 0)) (omega arith) (omega arith)))

-- What is queued with room is sent after all that was queued before, in two rounds for each.
sent_after :
    (static_tsbks : List (List ℕ)) (events : List Event) (c : Channel) (tsbk : List ℕ)
    → length c.tsbk_queue < 128
    → c.frame_n + rounds events < 2 ^ 64
    → 2 * (length c.tsbk_queue + 1) ≤ rounds events
    → take (length c.tsbk_queue + 1) (responses (run static_tsbks events (queue_tsbk c tsbk)).0)
      ≡ c.tsbk_queue ++ tsbk ∷ []
sent_after static_tsbks events c tsbk h k m =
    let (grown, same) = queue_tsbk-room c tsbk h in
    let n = length c.tsbk_queue + 1 in
    let size : length (queue_tsbk c tsbk).tsbk_queue ≡ n =
      ap length grown ∙ length-append c.tsbk_queue (tsbk ∷ []) in
    responses-take static_tsbks events (queue_tsbk c tsbk) n (omega (arith, size))
      (omega (arith, same, k)) m
    ∙ take_all n (queue_tsbk c tsbk).tsbk_queue (omega (arith, size))
    ∙ grown

module _ (sysid : ℕ) (lb : Bool) (mfid args : ℕ) (c : Channel) (static_tsbks : List (List ℕ))
    (events : List Event) (room : length c.tsbk_queue < 128)
    (count : c.frame_n + rounds events < 2 ^ 64)
    (long : 2 * (length c.tsbk_queue + 1) ≤ rounds events) where
  -- A site whose queue has room, asked for a group in a block of any manufacturer and any 64 argument
  -- bits, queues one response behind what waits. In a run of two rounds or more for each of these in
  -- which the number of the frame does not wrap around, they are the first that are sent, and the
  -- response reads as an acceptance of the group and the unit in the request.
  pub affiliation_answered :
      let raw = build_tsbk lb isp_grp_aff_q mfid args in
      (rsp : List ℕ) × (take
          (length c.tsbk_queue + 1)
          (responses (run static_tsbks events (handle_isp_tsbk sysid isp_grp_aff_q raw c).0).0)
        ≡ c.tsbk_queue ++ rsp ∷ [])
      × (decode_message rsp
          ≡ some (grp_aff_rsp 0 0 (field args 24 16) (field args 24 16) (field args 0 24)))
  unfolding handle_isp_tsbk
  affiliation_answered =
      let raw = build_tsbk lb isp_grp_aff_q mfid args in
      let group = tgid_of-build lb isp_grp_aff_q mfid args in
      let source = src_id_of-build lb isp_grp_aff_q mfid args in
      let short : field args 0 24 % 2 ^ 24 ≡ field args 0 24 = omega arith in
      (
        build_grp_aff_rsp false 0 (tgid_of raw) (tgid_of raw) (src_id_of raw),
        sent_after static_tsbks events c _ room count long,
        rw (group, source)
            (decode-grp_aff_rsp false 0 (field args 24 16) (field args 24 16) (field args 0 24)
                (omega arith) (omega arith)
              ∙ ap (λ s. some (grp_aff_rsp 0 0 (field args 24 16) (field args 24 16) s)) short),
      )

  -- A site whose queue has room, asked for registration in a block of any manufacturer and any 64
  -- argument bits, queues one response behind what waits. In a run of two rounds or more for each of
  -- these in which the number of the frame does not wrap around, they are the first that are sent, and
  -- the response reads as the value 1, the system's identifier in 12 bits, and the unit of the request
  -- as target and source.
  pub registration_answered :
      let raw = build_tsbk lb isp_u_reg_req mfid args in
      (rsp : List ℕ) × (take
          (length c.tsbk_queue + 1)
          (responses (run static_tsbks events (handle_isp_tsbk sysid isp_u_reg_req raw c).0).0)
        ≡ c.tsbk_queue ++ rsp ∷ [])
      × (decode_message rsp
          ≡ some (u_reg_rsp 1 (sysid % 2 ^ 12) (field args 0 24) (field args 0 24)))
  unfolding handle_isp_tsbk
  registration_answered =
      let raw = build_tsbk lb isp_u_reg_req mfid args in
      let source = src_id_of-build lb isp_u_reg_req mfid args in
      let short : field args 0 24 % 2 ^ 24 ≡ field args 0 24 = omega arith in
      (
        build_u_reg_rsp true sysid (src_id_of raw) (src_id_of raw),
        sent_after static_tsbks events c _ room count long,
        rw source (
            decode-u_reg_rsp true sysid (field args 0 24) (field args 0 24)
            ∙ ap (λ s. some (u_reg_rsp 1 (sysid % 2 ^ 12) s s)) short),
      )
