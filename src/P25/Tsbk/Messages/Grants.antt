-- ===== src/P25/Tsbk/Messages/Grants.antt =====
-- The grants of voice channels read back.
use site_sim.Base.{ℕ, ◌+◌, ◌*◌, ◌%◌, ◌^◌, ◌<◌, ◌≡◌, refl, ◌∙◌, some, true, arith}
use site_sim.Bits.{bit_and_mask}
use site_sim.P25.Tsbk.Messages.{
  tsbk_grp_vch_grant, grp_v_ch_grant_args, build_grp_v_ch_grant, tsbk_grp_vch_grant_upd,
  grp_v_ch_grant_updt_args, build_grp_v_ch_grant_updt,
}
use site_sim.P25.Tsbk.Messages.Decode.{
  grp_v_ch_grant, grp_v_ch_grant_updt, decode_args, decode_message, decode_message-build,
  channel_field-sum, or_sum,
}

grp_v_ch_grant_args-sum :
    (opts chan_id chan_num talkgroup source : ℕ)
    → opts < 2 ^ 8
    → talkgroup < 2 ^ 16
    → grp_v_ch_grant_args opts chan_id chan_num talkgroup source
      ≡ opts * 2 ^ 56
        + (chan_id % 16 * 2 ^ 12 + chan_num % 2 ^ 12) * 2 ^ 40
        + talkgroup * 2 ^ 24
        + source % 2 ^ 24
unfolding grp_v_ch_grant_args
grp_v_ch_grant_args-sum opts chan_id chan_num talkgroup source ho ht =
    or_sum 24 _ _ _ _
      (or_sum 40 _ _ _ _
        (or_sum 56 _ _ _ _ (omega arith) (omega (arith, channel_field-sum chan_id chan_num))
          (omega arith) (omega arith))
        (omega arith) (omega arith) (omega arith))
      (bit_and_mask 24 source) (omega arith) (omega arith)

-- The grant reads as its fields, cut to their widths, for options of 8 and a group of 16 bits.
pub decode-grp_v_ch_grant :
    (opts chan_id chan_num talkgroup source : ℕ)
    → opts < 2 ^ 8
    → talkgroup < 2 ^ 16
    → decode_message (build_grp_v_ch_grant opts chan_id chan_num talkgroup source)
      ≡ some (
          grp_v_ch_grant opts
            (record { id = chan_id % 16; num = chan_num % 2 ^ 12 })
            talkgroup
            (source % 2 ^ 24))
unfolding build_grp_v_ch_grant decode_args
decode-grp_v_ch_grant opts chan_id chan_num talkgroup source ho ht =
    let sum = grp_v_ch_grant_args-sum opts chan_id chan_num talkgroup source ho ht in
    decode_message-build true tsbk_grp_vch_grant
      (grp_v_ch_grant_args opts chan_id chan_num talkgroup source) (omega arith)
      (omega (arith, sum))
    ∙ ground (arith, sum)

grp_v_ch_grant_updt_args-sum :
    (chan_id1 chan_num1 tg1 chan_id2 chan_num2 tg2 : ℕ)
    → tg1 < 2 ^ 16
    → tg2 < 2 ^ 16
    → grp_v_ch_grant_updt_args chan_id1 chan_num1 tg1 chan_id2 chan_num2 tg2
      ≡ (chan_id1 % 16 * 2 ^ 12 + chan_num1 % 2 ^ 12) * 2 ^ 48
        + tg1 * 2 ^ 32
        + (chan_id2 % 16 * 2 ^ 12 + chan_num2 % 2 ^ 12) * 2 ^ 16
        + tg2
unfolding grp_v_ch_grant_updt_args
grp_v_ch_grant_updt_args-sum chan_id1 chan_num1 tg1 chan_id2 chan_num2 tg2 h1 h2 =
    or_sum 16 _ _ _ _
      (or_sum 32 _ _ _ _
        (or_sum 48 _ _ _ _ (omega (arith, channel_field-sum chan_id1 chan_num1)) (omega arith)
          (omega arith) (omega arith))
        (omega (arith, channel_field-sum chan_id2 chan_num2)) (omega arith) (omega arith))
      refl (omega arith) (omega arith)

-- The update of grants reads as its fields, cut to their widths, for groups of 16 bits.
pub decode-grp_v_ch_grant_updt :
    (chan_id1 chan_num1 tg1 chan_id2 chan_num2 tg2 : ℕ)
    → tg1 < 2 ^ 16
    → tg2 < 2 ^ 16
    → decode_message (build_grp_v_ch_grant_updt chan_id1 chan_num1 tg1 chan_id2 chan_num2 tg2)
      ≡ some (
          grp_v_ch_grant_updt
            (record { id = chan_id1 % 16; num = chan_num1 % 2 ^ 12 })
            tg1
            (record { id = chan_id2 % 16; num = chan_num2 % 2 ^ 12 })
            tg2)
unfolding build_grp_v_ch_grant_updt decode_args
decode-grp_v_ch_grant_updt chan_id1 chan_num1 tg1 chan_id2 chan_num2 tg2 h1 h2 =
    let sum = grp_v_ch_grant_updt_args-sum chan_id1 chan_num1 tg1 chan_id2 chan_num2 tg2 h1 h2 in
    decode_message-build true tsbk_grp_vch_grant_upd
      (grp_v_ch_grant_updt_args chan_id1 chan_num1 tg1 chan_id2 chan_num2 tg2) (omega arith)
      (omega (arith, sum))
    ∙ ground (arith, sum)
