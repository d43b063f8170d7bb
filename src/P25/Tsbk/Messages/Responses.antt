-- ===== src/P25/Tsbk/Messages/Responses.antt =====
-- The answers to affiliations and registrations read back.
use site_sim.Base.{
  ℕ, ◌+◌, ◌*◌, ◌%◌, ◌^◌, ◌<◌, ◌≡◌, ◌∙◌, some, Bool, true, if◌then◌else◌, flag-lt, arith,
}
use site_sim.Bits.{bit_and_mask}
use site_sim.P25.Tsbk.Messages.{
  tsbk_grp_aff_rsp, grp_aff_rsp_args, build_grp_aff_rsp, tsbk_loc_reg_rsp, loc_reg_rsp_args,
  build_loc_reg_rsp, tsbk_u_reg_rsp, u_reg_rsp_args, build_u_reg_rsp,
}
use site_sim.P25.Tsbk.Messages.Decode.{
  grp_aff_rsp, loc_reg_rsp, u_reg_rsp, decode_args, decode_message, decode_message-build, or_sum,
}

grp_aff_rsp_args-sum :
    (lg : Bool) (gav announce_group talkgroup source : ℕ)
    → announce_group < 2 ^ 16
    → talkgroup < 2 ^ 16
    → grp_aff_rsp_args lg gav announce_group talkgroup source
      ≡ (if lg then 1 else 0) * 2 ^ 63
        + gav % 2 ^ 2 * 2 ^ 56
        + announce_group * 2 ^ 40
        + talkgroup * 2 ^ 24
        + source % 2 ^ 24
unfolding grp_aff_rsp_args
grp_aff_rsp_args-sum lg gav announce_group talkgroup source ha ht =
    or_sum 24 _ _ _ _
      (or_sum 40 _ _ _ _
        (or_sum 56 _ _ _ _
          (or_sum 63 _ _ _ _ (omega (arith, flag-lt lg)) (omega (arith, bit_and_mask 2 gav))
            (omega arith) (omega arith))
          (omega arith) (omega arith) (omega arith))
        (omega arith) (omega arith) (omega arith))
      (bit_and_mask 24 source) (omega arith) (omega arith)

-- The answer to an affiliation reads as its fields, cut to their widths, for groups of 16 bits.
pub decode-grp_aff_rsp :
    (lg : Bool) (gav announce_group talkgroup source : ℕ)
    → announce_group < 2 ^ 16
    → talkgroup < 2 ^ 16
    → decode_message (build_grp_aff_rsp lg gav announce_group talkgroup source)
      ≡ some
          (grp_aff_rsp (if lg then 1 else 0) (gav % 4) announce_group talkgroup (source % 2 ^ 24))
unfolding build_grp_aff_rsp decode_args
decode-grp_aff_rsp lg gav announce_group talkgroup source ha ht =
    let sum = grp_aff_rsp_args-sum lg gav announce_group talkgroup source ha ht in
    decode_message-build true tsbk_grp_aff_rsp
      (grp_aff_rsp_args lg gav announce_group talkgroup source) (omega arith)
      (omega (arith, sum, flag-lt lg))
    ∙ ground (arith, sum, flag-lt lg)

loc_reg_rsp_args-sum :
    (rv talkgroup rfss_id site_id target : ℕ)
    → talkgroup < 2 ^ 16
    → rfss_id < 2 ^ 8
    → site_id < 2 ^ 8
    → loc_reg_rsp_args rv talkgroup rfss_id site_id target
      ≡ rv % 2 ^ 2 * 2 ^ 56
        + talkgroup * 2 ^ 40
        + rfss_id * 2 ^ 32
        + site_id * 2 ^ 24
        + target % 2 ^ 24
unfolding loc_reg_rsp_args
loc_reg_rsp_args-sum rv talkgroup rfss_id site_id target ht hr hi =
    or_sum 24 _ _ _ _
      (or_sum 32 _ _ _ _
        (or_sum 40 _ _ _ _
          (or_sum 56 _ _ _ _ (omega (arith, bit_and_mask 2 rv)) (omega arith) (omega arith)
            (omega arith))
          (omega arith) (omega arith) (omega arith))
        (omega arith) (omega arith) (omega arith))
      (bit_and_mask 24 target) (omega arith) (omega arith)

-- The answer to a location registration reads as its fields, cut to their widths, if those that the
-- types make 16 or 8 bits wide are.
pub decode-loc_reg_rsp :
    (rv talkgroup rfss_id site_id target : ℕ)
    → talkgroup < 2 ^ 16
    → rfss_id < 2 ^ 8
    → site_id < 2 ^ 8
    → decode_message (build_loc_reg_rsp rv talkgroup rfss_id site_id target)
      ≡ some (loc_reg_rsp (rv % 4) talkgroup rfss_id site_id (target % 2 ^ 24))
unfolding build_loc_reg_rsp decode_args
decode-loc_reg_rsp rv talkgroup rfss_id site_id target ht hr hi =
    let sum = loc_reg_rsp_args-sum rv talkgroup rfss_id site_id target ht hr hi in
    decode_message-build true tsbk_loc_reg_rsp
      (loc_reg_rsp_args rv talkgroup rfss_id site_id target) (omega arith) (omega (arith, sum))
    ∙ ground (arith, sum)

u_reg_rsp_args-sum :
    (accepted : Bool) (sys_id target source : ℕ)
    → u_reg_rsp_args accepted sys_id target source
      ≡ (if accepted then 1 else 0) * 2 ^ 60
        + sys_id % 2 ^ 12 * 2 ^ 48
        + target % 2 ^ 24 * 2 ^ 24
        + source % 2 ^ 24
unfolding u_reg_rsp_args
u_reg_rsp_args-sum accepted sys_id target source =
    or_sum 24 _ _ _ _
      (or_sum 48 _ _ _ _
        (or_sum 60 _ _ _ _ (omega (arith, flag-lt accepted)) (omega (arith, bit_and_mask 12 sys_id))
          (omega arith) (omega arith))
        (omega (arith, bit_and_mask 24 target)) (omega arith) (omega arith))
      (bit_and_mask 24 source) (omega arith) (omega arith)

-- The answer to a unit registration reads as its fields, cut to their widths; its value is 1 for an
-- accepted unit, else 0.
pub decode-u_reg_rsp :
    (accepted : Bool) (sys_id target source : ℕ)
    → decode_message (build_u_reg_rsp accepted sys_id target source)
      ≡ some (
          u_reg_rsp
            (if accepted then 1 else 0)
            (sys_id % 2 ^ 12)
            (target % 2 ^ 24)
            (source % 2 ^ 24))
unfolding build_u_reg_rsp decode_args
decode-u_reg_rsp accepted sys_id target source =
    let sum = u_reg_rsp_args-sum accepted sys_id target source in
    decode_message-build true tsbk_u_reg_rsp (u_reg_rsp_args accepted sys_id target source)
      (omega arith) (omega (arith, sum, flag-lt accepted))
    ∙ ground (arith, sum, flag-lt accepted)
