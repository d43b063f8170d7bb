-- ===== src/Rx/Handler.antt =====
-- `handleIspTsbk` of src/rx/RxPipeline.cpp: what the site does with a block from a subscriber. The
-- opcodes are those of third_party/dsd-neo/include/dsd-neo/runtime/p25_isp_hooks.h. A line for the
-- log is its form and the numbers that are printed in it.
pub mod Answer
pub mod Heard
pub mod Logged
mod Tests
use site_sim.Base.{
  ℕ, bit_and, bit_or, List, [], ◌∷◌, Bool, true, false, get_or, ◌==◌, if◌then◌else◌, ◌<<◌, ◌>>◌,
}
use site_sim.P25.Tsbk.Messages.{build_grp_aff_rsp, build_u_reg_rsp}
use site_sim.Tx.Control.{Channel, queue_tsbk}

abbrev pub isp_grp_vch_req : ℕ
isp_grp_vch_req = 0x00

abbrev pub isp_uu_vch_req : ℕ
isp_uu_vch_req = 0x03

abbrev pub isp_emrg_alrm_req : ℕ
isp_emrg_alrm_req = 0x0F

abbrev pub isp_grp_aff_q : ℕ
isp_grp_aff_q = 0x28

abbrev pub isp_u_reg_req : ℕ
isp_u_reg_req = 0x2C

abbrev pub isp_u_de_reg_ack : ℕ
isp_u_de_reg_ack = 0x2F

pub data RxLine : Type 0 where
  grp_vch_req : (src_id tgid : ℕ) (emrg : Bool) → RxLine
  grp_aff_req : (src_id tgid : ℕ) → RxLine
  u_reg_req : (src_id : ℕ) → RxLine
  u_de_reg_ack : (src_id : ℕ) → RxLine
  emrg_alrm : (src_id tgid : ℕ) → RxLine
  uu_vch_req : (src_id target : ℕ) → RxLine
  other : (opcode src_id : ℕ) → RxLine

-- `tgid`, `src_id`, `options`, `emrg` and `target`, of twelve bytes.
abbrev byte_at : List ℕ → ℕ → ℕ
byte_at raw i = get_or raw i 0

pub tgid_of : List ℕ → ℕ
tgid_of raw = bit_or (byte_at raw 5 << 8) (byte_at raw 6)

pub src_id_of : List ℕ → ℕ
src_id_of raw = bit_or (bit_or (byte_at raw 7 << 16) (byte_at raw 8 << 8)) (byte_at raw 9)

pub emrg_of : List ℕ → Bool
emrg_of raw = if bit_and (byte_at raw 2 >> 7) 1 == 0 then false else true

pub target_of : List ℕ → ℕ
target_of raw = bit_or (bit_or (byte_at raw 4 << 16) (byte_at raw 5 << 8)) (byte_at raw 6)

-- `handleIspTsbk`, for a site with a system identifier: the control channel after it, and what is
-- logged.
pub handle_isp_tsbk : ℕ → ℕ → List ℕ → Channel → Channel × List RxLine
handle_isp_tsbk sysid opcode raw cc =
    let tgid = tgid_of raw in
    let src_id = src_id_of raw in
    if opcode == isp_grp_vch_req
    then (cc, grp_vch_req src_id tgid (emrg_of raw) ∷ [])
    else if opcode == isp_grp_aff_q
    then (queue_tsbk cc (build_grp_aff_rsp false 0 tgid tgid src_id), grp_aff_req src_id tgid ∷ [])
    else if opcode == isp_u_reg_req
    then (queue_tsbk cc (build_u_reg_rsp true sysid src_id src_id), u_reg_req src_id ∷ [])
    else if opcode == isp_u_de_reg_ack
    then (cc, u_de_reg_ack src_id ∷ [])
    else if opcode == isp_emrg_alrm_req
    then (cc, emrg_alrm src_id tgid ∷ [])
    else if opcode == isp_uu_vch_req
    then (cc, uu_vch_req src_id (target_of raw) ∷ [])
    else (cc, other opcode src_id ∷ [])
