-- ===== src/P25/Tsbk/Messages.antt =====
-- The builders of the messages of the control channel, in src/p25/TSBK.cpp, except that of the
-- synchronization broadcast (Sync). Parameters of a width the type states are numbers below it.
pub mod Decode
pub mod Broadcasts
pub mod Responses
pub mod Spare
pub mod Grants
pub mod Size
use site_sim.Base.{
  ℕ, ◌+◌, ◌*◌, ◌/◌, ◌%◌, ◌^◌, bit_and, bit_or, List, Bool, true, ◌==◌, if◌then◌else◌, shl64,
}
use site_sim.Base.Int.{ℤ, pos, negsuc}
use site_sim.P25.Tsbk.Block.{build_tsbk}

-- The opcodes of TSBK.hpp.
abbrev pub tsbk_grp_vch_grant : ℕ
tsbk_grp_vch_grant = 0x00

abbrev pub tsbk_grp_vch_grant_upd : ℕ
tsbk_grp_vch_grant_upd = 0x02

abbrev pub tsbk_grp_aff_rsp : ℕ
tsbk_grp_aff_rsp = 0x28

abbrev pub tsbk_loc_reg_rsp : ℕ
tsbk_loc_reg_rsp = 0x2B

abbrev pub tsbk_u_reg_rsp : ℕ
tsbk_u_reg_rsp = 0x2C

abbrev pub tsbk_sync_bcast : ℕ
tsbk_sync_bcast = 0x30

abbrev pub tsbk_rfss_sts_bcast : ℕ
tsbk_rfss_sts_bcast = 0x3A

abbrev pub tsbk_net_sts_bcast : ℕ
tsbk_net_sts_bcast = 0x3B

abbrev pub tsbk_adj_sts_bcast : ℕ
tsbk_adj_sts_bcast = 0x3C

abbrev pub tsbk_iden_up : ℕ
tsbk_iden_up = 0x3D

-- `ch`, the 16-bit channel of several messages.
pub channel_field : ℕ → ℕ → ℕ
channel_field chan_id chan_num = bit_or (shl64 (bit_and chan_id 0xF) 12) (bit_and chan_num 0xFFF)

-- `BuildNetStatusBcast`
pub net_status_args : ℕ → ℕ → ℕ → ℕ → ℕ → ℕ
net_status_args wacn sys_id chan_id chan_num ssc =
    bit_or
      (bit_or (bit_or (shl64 (bit_and wacn 0xFFFFF) 36) (shl64 (bit_and sys_id 0xFFF) 24))
        (shl64 (channel_field chan_id chan_num) 8))
      ssc

pub build_net_status_bcast : ℕ → ℕ → ℕ → ℕ → ℕ → List ℕ
build_net_status_bcast wacn sys_id chan_id chan_num ssc =
    build_tsbk true tsbk_net_sts_bcast 0x00 (net_status_args wacn sys_id chan_id chan_num ssc)

-- `BuildRFSSStatusBcast`
pub rfss_status_args : ℕ → ℕ → ℕ → ℕ → ℕ → ℕ → ℕ → ℕ
rfss_status_args lrar sys_id rfss_id site_id chan_id chan_num ssc =
    bit_or
      (bit_or
        (bit_or
          (bit_or (bit_or (shl64 lrar 56) (shl64 (bit_and sys_id 0xFFF) 40)) (shl64 rfss_id 32))
          (shl64 site_id 24))
        (shl64 (channel_field chan_id chan_num) 8))
      ssc

pub build_rfss_status_bcast : ℕ → ℕ → ℕ → ℕ → ℕ → ℕ → ℕ → List ℕ
build_rfss_status_bcast lrar sys_id rfss_id site_id chan_id chan_num ssc =
    build_tsbk true tsbk_rfss_sts_bcast 0x00
      (rfss_status_args lrar sys_id rfss_id site_id chan_id chan_num ssc)

-- `BuildAdjStsBcast`
pub adj_status_args : ℕ → ℕ → ℕ → ℕ → ℕ → ℕ → ℕ
adj_status_args adj_sys_id rfss_id site_id chan_id chan_num ssc =
    bit_or
      (bit_or
        (bit_or (bit_or (shl64 (bit_and adj_sys_id 0xFFF) 40) (shl64 rfss_id 32))
          (shl64 site_id 24))
        (shl64 (channel_field chan_id chan_num) 8))
      ssc

pub build_adj_sts_bcast : ℕ → ℕ → ℕ → ℕ → ℕ → ℕ → List ℕ
build_adj_sts_bcast adj_sys_id rfss_id site_id chan_id chan_num ssc =
    build_tsbk true tsbk_adj_sts_bcast 0x00
      (adj_status_args adj_sys_id rfss_id site_id chan_id chan_num ssc)

-- `offsetField` of `BuildIDENUp`, of an `int16_t`.
pub offset_field : ℤ → ℕ
offset_field (pos n) = if n == 0 then 0 else bit_or 0x100 (bit_and n 0xFF)
offset_field (negsuc n) = bit_and (n + 1) 0xFF

-- `BuildIDENUp`
pub iden_up_args : ℕ → ℕ → ℤ → ℕ → ℕ → ℕ
iden_up_args iden bw_units offset_units chspac_units base_freq_hz =
    let base_units = base_freq_hz / 5 in
    bit_or
      (bit_or
        (bit_or (bit_or (shl64 (bit_and iden 0xF) 60) (shl64 (bit_and bw_units 0x1FF) 51))
          (shl64 (offset_field offset_units) 42))
        (shl64 (bit_and chspac_units 0x3FF) 32))
      (bit_and base_units 0xFFFFFFFF)

pub build_iden_up : ℕ → ℕ → ℤ → ℕ → ℕ → List ℕ
build_iden_up iden bw_units offset_units chspac_units base_freq_hz =
    build_tsbk true tsbk_iden_up 0x00
      (iden_up_args iden bw_units offset_units chspac_units base_freq_hz)

-- `BuildGrpVChGrant`
pub grp_v_ch_grant_args : ℕ → ℕ → ℕ → ℕ → ℕ → ℕ
grp_v_ch_grant_args opts chan_id chan_num talkgroup source =
    bit_or
      (bit_or (bit_or (shl64 opts 56) (shl64 (channel_field chan_id chan_num) 40))
        (shl64 talkgroup 24))
      (bit_and source 0xFFFFFF)

pub build_grp_v_ch_grant : ℕ → ℕ → ℕ → ℕ → ℕ → List ℕ
build_grp_v_ch_grant opts chan_id chan_num talkgroup source =
    build_tsbk true tsbk_grp_vch_grant 0x00
      (grp_v_ch_grant_args opts chan_id chan_num talkgroup source)

-- `BuildGrpVChGrantUpdt`
pub grp_v_ch_grant_updt_args : ℕ → ℕ → ℕ → ℕ → ℕ → ℕ → ℕ
grp_v_ch_grant_updt_args chan_id1 chan_num1 tg1 chan_id2 chan_num2 tg2 =
    bit_or
      (bit_or (bit_or (shl64 (channel_field chan_id1 chan_num1) 48) (shl64 tg1 32))
        (shl64 (channel_field chan_id2 chan_num2) 16))
      tg2

pub build_grp_v_ch_grant_updt : ℕ → ℕ → ℕ → ℕ → ℕ → ℕ → List ℕ
build_grp_v_ch_grant_updt chan_id1 chan_num1 tg1 chan_id2 chan_num2 tg2 =
    build_tsbk true tsbk_grp_vch_grant_upd 0x00
      (grp_v_ch_grant_updt_args chan_id1 chan_num1 tg1 chan_id2 chan_num2 tg2)

-- `BuildGrpAffRsp`
pub grp_aff_rsp_args : Bool → ℕ → ℕ → ℕ → ℕ → ℕ
grp_aff_rsp_args lg gav announce_group talkgroup source =
    let lg_bit : ℕ = if lg then 1 else 0 in
    bit_or
      (bit_or
        (bit_or (bit_or (shl64 lg_bit 63) (shl64 (bit_and gav 3) 56)) (shl64 announce_group 40))
        (shl64 talkgroup 24))
      (bit_and source 0xFFFFFF)

pub build_grp_aff_rsp : Bool → ℕ → ℕ → ℕ → ℕ → List ℕ
build_grp_aff_rsp lg gav announce_group talkgroup source =
    build_tsbk true tsbk_grp_aff_rsp 0x00 (grp_aff_rsp_args lg gav announce_group talkgroup source)

-- `BuildLocRegRsp`
pub loc_reg_rsp_args : ℕ → ℕ → ℕ → ℕ → ℕ → ℕ
loc_reg_rsp_args rv talkgroup rfss_id site_id target =
    bit_or
      (bit_or (bit_or (bit_or (shl64 (bit_and rv 3) 56) (shl64 talkgroup 40)) (shl64 rfss_id 32))
        (shl64 site_id 24))
      (bit_and target 0xFFFFFF)

pub build_loc_reg_rsp : ℕ → ℕ → ℕ → ℕ → ℕ → List ℕ
build_loc_reg_rsp rv talkgroup rfss_id site_id target =
    build_tsbk true tsbk_loc_reg_rsp 0x00 (loc_reg_rsp_args rv talkgroup rfss_id site_id target)

-- `BuildURegRsp`
pub u_reg_rsp_args : Bool → ℕ → ℕ → ℕ → ℕ
u_reg_rsp_args accepted sys_id target source =
    let rv : ℕ = if accepted then 1 else 0 in
    bit_or
      (bit_or (bit_or (shl64 rv 60) (shl64 (bit_and sys_id 0xFFF) 48))
        (shl64 (bit_and target 0xFFFFFF) 24))
      (bit_and source 0xFFFFFF)

pub build_u_reg_rsp : Bool → ℕ → ℕ → ℕ → List ℕ
build_u_reg_rsp accepted sys_id target source =
    build_tsbk true tsbk_u_reg_rsp 0x00 (u_reg_rsp_args accepted sys_id target source)
