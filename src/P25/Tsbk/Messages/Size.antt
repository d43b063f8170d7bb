-- ===== src/P25/Tsbk/Messages/Size.antt =====
-- The broadcasts of src/p25/TSBK.cpp are blocks.
use site_sim.Base.{ℕ, Bool, true}
use site_sim.Base.Int.{ℤ}
use site_sim.P25.Tsbk.Block.Parse.{IsBlock, build_tsbk-IsBlock}
use site_sim.P25.Tsbk.Messages.{
  tsbk_rfss_sts_bcast, tsbk_net_sts_bcast, tsbk_adj_sts_bcast, tsbk_iden_up, net_status_args,
  rfss_status_args, adj_status_args, iden_up_args, build_net_status_bcast, build_rfss_status_bcast,
  build_adj_sts_bcast, build_iden_up, build_grp_aff_rsp, build_u_reg_rsp, tsbk_grp_aff_rsp,
  tsbk_u_reg_rsp,
}

pub build_net_status_bcast-IsBlock :
    (wacn sys_id chan_id chan_num ssc : ℕ)
    → IsBlock (build_net_status_bcast wacn sys_id chan_id chan_num ssc)
unfolding build_net_status_bcast
build_net_status_bcast-IsBlock wacn sys_id chan_id chan_num ssc =
    build_tsbk-IsBlock true tsbk_net_sts_bcast 0x00
      (net_status_args wacn sys_id chan_id chan_num ssc)

pub build_rfss_status_bcast-IsBlock :
    (lrar sys_id rfss_id site_id chan_id chan_num ssc : ℕ)
    → IsBlock (build_rfss_status_bcast lrar sys_id rfss_id site_id chan_id chan_num ssc)
unfolding build_rfss_status_bcast
build_rfss_status_bcast-IsBlock lrar sys_id rfss_id site_id chan_id chan_num ssc =
    build_tsbk-IsBlock true tsbk_rfss_sts_bcast 0x00
      (rfss_status_args lrar sys_id rfss_id site_id chan_id chan_num ssc)

pub build_adj_sts_bcast-IsBlock :
    (adj_sys_id rfss_id site_id chan_id chan_num ssc : ℕ)
    → IsBlock (build_adj_sts_bcast adj_sys_id rfss_id site_id chan_id chan_num ssc)
unfolding build_adj_sts_bcast
build_adj_sts_bcast-IsBlock adj_sys_id rfss_id site_id chan_id chan_num ssc =
    build_tsbk-IsBlock true tsbk_adj_sts_bcast 0x00
      (adj_status_args adj_sys_id rfss_id site_id chan_id chan_num ssc)

pub build_iden_up-IsBlock :
    (iden bw_units : ℕ) (offset_units : ℤ) (chspac_units base_freq_hz : ℕ)
    → IsBlock (build_iden_up iden bw_units offset_units chspac_units base_freq_hz)
unfolding build_iden_up
build_iden_up-IsBlock iden bw_units offset_units chspac_units base_freq_hz =
    build_tsbk-IsBlock true tsbk_iden_up 0x00
      (iden_up_args iden bw_units offset_units chspac_units base_freq_hz)

pub build_grp_aff_rsp-IsBlock :
    (lg : Bool) (gav ann group source : ℕ) → IsBlock (build_grp_aff_rsp lg gav ann group source)
unfolding build_grp_aff_rsp
build_grp_aff_rsp-IsBlock lg gav ann group source = build_tsbk-IsBlock true tsbk_grp_aff_rsp 0x00 _

pub build_u_reg_rsp-IsBlock :
    (accepted : Bool) (sysid source target : ℕ)
    → IsBlock (build_u_reg_rsp accepted sysid source target)
unfolding build_u_reg_rsp
build_u_reg_rsp-IsBlock accepted sysid source target = build_tsbk-IsBlock true tsbk_u_reg_rsp 0x00 _
