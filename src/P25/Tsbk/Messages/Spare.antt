-- ===== src/P25/Tsbk/Messages/Spare.antt =====
-- The blocks of src/p25/TSBK.cpp that the program does not send yet: the grants of voice channels and
-- the answer to a location registration.
use site_sim.Base.{ℕ, ◌%◌, ◌^◌, ◌<◌, ◌≡◌, some}
use site_sim.P25.Tsbk.Messages.{build_loc_reg_rsp, build_grp_v_ch_grant, build_grp_v_ch_grant_updt}
use site_sim.P25.Tsbk.Messages.Decode.{
  decode_message, loc_reg_rsp, grp_v_ch_grant, grp_v_ch_grant_updt,
}
use site_sim.P25.Tsbk.Messages.Responses.{decode-loc_reg_rsp}
use site_sim.P25.Tsbk.Messages.Grants.{decode-grp_v_ch_grant, decode-grp_v_ch_grant_updt}

-- A grant, an update of two grants and an answer to a location registration read as their fields: the
-- options and the RFSS and site numbers of 8 bits and the talkgroups of 16 bits as they are, and the
-- channels, the value and the units cut to their widths.
pub decode-spare :
    (opts id num id' num' group group' unit rv rfss_id site_id : ℕ)
    → opts < 2 ^ 8
    → group < 2 ^ 16
    → group' < 2 ^ 16
    → rfss_id < 2 ^ 8
    → site_id < 2 ^ 8
    → (decode_message (build_grp_v_ch_grant opts id num group unit)
        ≡ some (
            grp_v_ch_grant opts
              (record { id = id % 16; num = num % 2 ^ 12 })
              group
              (unit % 2 ^ 24)))
      × (decode_message (build_grp_v_ch_grant_updt id num group id' num' group')
          ≡ some (
              grp_v_ch_grant_updt
                (record { id = id % 16; num = num % 2 ^ 12 })
                group
                (record { id = id' % 16; num = num' % 2 ^ 12 })
                group'))
      × (decode_message (build_loc_reg_rsp rv group rfss_id site_id unit)
          ≡ some (loc_reg_rsp (rv % 4) group rfss_id site_id (unit % 2 ^ 24)))
decode-spare opts id num id' num' group group' unit rv rfss_id site_id ho hg hg' hr hs = (
  decode-grp_v_ch_grant opts id num group unit ho hg,
  decode-grp_v_ch_grant_updt id num group id' num' group' hg hg',
  decode-loc_reg_rsp rv group rfss_id site_id unit hg hr hs,
)
