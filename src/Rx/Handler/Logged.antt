-- ===== src/Rx/Handler/Logged.antt =====
-- What `handleIspTsbk` of src/rx/RxPipeline.cpp logs of the block of a subscriber.
use site_sim.Base.{
  ℕ, ◌+◌, ◌≡◌, ◌≤◌, bit_or, [], ◌∷◌, Bool, true, false, length, u8, ◌<<◌, ◌>>◌, ◌==◌, if◌then◌else◌,
  word_bytes, arith,
}
use site_sim.Bits.{bit_or_above, bit_and_mask}
use site_sim.P25.Tsbk.Block.{build_tsbk}
use site_sim.P25.Tsbk.Messages.{build_grp_aff_rsp, build_u_reg_rsp}
use site_sim.P25.Tsbk.Messages.Decode.{field}
use site_sim.Tx.Control.{Channel}
use site_sim.Tx.Control.Queue.{queue_tsbk-full}
use site_sim.Rx.Handler.{
  RxLine, grp_vch_req, grp_aff_req, u_reg_req, u_de_reg_ack, emrg_alrm, uu_vch_req, other, emrg_of,
  target_of, handle_isp_tsbk,
}
use site_sim.Rx.Handler.Answer.{tgid_of-build, src_id_of-build}

-- What a request says, by its opcode and the fields of its 64 argument bits: the unit in the lowest 24, the
-- group in the 16 above them or the target in the 24 above them, and an emergency in the highest.
abbrev pub said : ℕ → ℕ → RxLine
said opcode args =
    let unit = field args 0 24 in
    let group = field args 24 16 in
    if opcode == 0x00
    then grp_vch_req unit group (field args 63 1 == 1)
    else if opcode == 0x28
    then grp_aff_req unit group
    else if opcode == 0x2C
    then u_reg_req unit
    else if opcode == 0x2F
    then u_de_reg_ack unit
    else if opcode == 0x0F
    then emrg_alrm unit group
    else if opcode == 0x03
    then uu_vch_req unit (field args 24 24)
    else other opcode unit

module _ (lb : Bool) (opcode mfid args : ℕ) where
  target_of-build : target_of (build_tsbk lb opcode mfid args) ≡ field args 24 24
  unfolding target_of build_tsbk word_bytes
  target_of-build =
      let high = u8 (args >> 40) << 16 in
      let mid = u8 (args >> 32) << 8 in
      let upper : bit_or high mid ≡ high + mid =
        bit_or_above 16 high mid (omega arith) (omega arith) in
      rw upper
        (omega (arith, bit_or_above 8 (high + mid) (u8 (args >> 24)) (omega arith) (omega arith)))

  emrg_of-build : emrg_of (build_tsbk lb opcode mfid args) ≡ (field args 63 1 == 1)
  unfolding emrg_of build_tsbk word_bytes
  emrg_of-build = rw (bit_and_mask 1 (u8 (args >> 56) >> 7)) (ground arith)

module _ (sysid : ℕ) (lb : Bool) (opcode mfid args : ℕ) where
  -- Whatever the opcode, the manufacturer and the 64 argument bits, and whether the queue has room or holds
  -- 128 or more, one line is logged, with the unit, the group, the target and the emergency of the request at
  -- their places. It is the same with a full queue, and then the control channel stays as it is: the line of a
  -- request for a group or for registration then tells of an answer that was not queued.
  pub handle_isp_tsbk-said :
      (c full : Channel)
      → 128 ≤ length full.tsbk_queue
      → let raw = build_tsbk lb opcode mfid args in
        ((handle_isp_tsbk sysid opcode raw c).1 ≡ said opcode args ∷ [])
        × (handle_isp_tsbk sysid opcode raw full ≡ (full, said opcode args ∷ []))
  unfolding handle_isp_tsbk
  handle_isp_tsbk-said c full h =
      let raw = build_tsbk lb opcode mfid args in
      let group = tgid_of-build lb opcode mfid args in
      let unit = src_id_of-build lb opcode mfid args in
      let target = target_of-build lb opcode mfid args in
      let emrg = emrg_of-build lb opcode mfid args in
      let aff =
        queue_tsbk-full full
          (build_grp_aff_rsp false 0 (field args 24 16) (field args 24 16) (field args 0 24)) h in
      let reg =
        queue_tsbk-full full (build_u_reg_rsp true sysid (field args 0 24) (field args 0 24)) h in
      rw (group, unit, target, emrg) (ground (arith, aff, reg))
