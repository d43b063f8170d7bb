-- ===== src/P25/Tsbk/Messages/Decode.antt =====
-- The messages as a subscriber reads them: a sum over the opcodes, and a decoder of the fields at
-- their places in the 64 argument bits.
use site_sim.Base.{
  ℕ, ◌+◌, ◌-◌, ◌*◌, ◌/◌, ◌%◌, ◌^◌, ◌<◌, bit_or, ◌≡◌, List, Option, none, some, Bool, ◌==◌,
  if◌then◌else◌, arith,
}
use site_sim.Base.Int.{ℤ, pos, negsuc}
use site_sim.Bits.{bit_and_mask, bit_or_above}
use site_sim.P25.Tsbk.Block.{build_tsbk}
use site_sim.P25.Tsbk.Block.Parse.{parse_tsbk, parse-build_tsbk}
use site_sim.P25.Tsbk.Messages.{
  tsbk_grp_vch_grant, tsbk_grp_vch_grant_upd, tsbk_grp_aff_rsp, tsbk_loc_reg_rsp, tsbk_u_reg_rsp,
  tsbk_rfss_sts_bcast, tsbk_net_sts_bcast, tsbk_adj_sts_bcast, tsbk_iden_up, channel_field,
}

pub record Channel : Type 0 where
  pub id : ℕ
  pub num : ℕ

pub data Message : Type 0 where
  net_status : (wacn sys_id : ℕ) (ch : Channel) (ssc : ℕ) → Message
  rfss_status : (lra sys_id rfss_id site_id : ℕ) (ch : Channel) (ssc : ℕ) → Message
  adj_status : (sys_id rfss_id site_id : ℕ) (ch : Channel) (ssc : ℕ) → Message
  iden_up : (iden bw : ℕ) (offset : ℤ) (spacing base : ℕ) → Message
  grp_v_ch_grant : (opts : ℕ) (ch : Channel) (talkgroup source : ℕ) → Message
  grp_v_ch_grant_updt : (ch1 : Channel) (tg1 : ℕ) (ch2 : Channel) (tg2 : ℕ) → Message
  grp_aff_rsp : (lg gav announce_group talkgroup source : ℕ) → Message
  loc_reg_rsp : (rv talkgroup rfss_id site_id target : ℕ) → Message
  u_reg_rsp : (rv sys_id target source : ℕ) → Message

-- The `w` bits of a word from bit `k` on.
abbrev pub field : ℕ → ℕ → ℕ → ℕ
field x k w = x / 2 ^ k % 2 ^ w

abbrev pub channel_at : ℕ → ℕ → Channel
channel_at x k = record { id = field x (k + 12) 4; num = field x k 12 }

-- A sign bit (1 for a positive offset) above a magnitude of eight bits.
abbrev pub signed_offset : ℕ → ℤ
signed_offset x =
    if x / 2 ^ 8 == 1
    then pos (x % 2 ^ 8)
    else if x % 2 ^ 8 == 0
    then pos 0
    else negsuc (x % 2 ^ 8 - 1)

unfoldable pub decode_args : ℕ → ℕ → Option Message
decode_args op x =
    if op == tsbk_net_sts_bcast
    then some (net_status (field x 36 20) (field x 24 12) (channel_at x 8) (field x 0 8))
    else if op == tsbk_rfss_sts_bcast
    then some (
        rfss_status (field x 56 8) (field x 40 12) (field x 32 8) (field x 24 8) (channel_at x 8)
          (field x 0 8))
    else if op == tsbk_adj_sts_bcast
    then some
        (adj_status (field x 40 12) (field x 32 8) (field x 24 8) (channel_at x 8) (field x 0 8))
    else if op == tsbk_iden_up
    then some (
        iden_up (field x 60 4) (field x 51 9) (signed_offset (field x 42 9)) (field x 32 10)
          (field x 0 32))
    else if op == tsbk_grp_vch_grant
    then some (grp_v_ch_grant (field x 56 8) (channel_at x 40) (field x 24 16) (field x 0 24))
    else if op == tsbk_grp_vch_grant_upd
    then some
        (grp_v_ch_grant_updt (channel_at x 48) (field x 32 16) (channel_at x 16) (field x 0 16))
    else if op == tsbk_grp_aff_rsp
    then some
        (grp_aff_rsp (field x 63 1) (field x 56 2) (field x 40 16) (field x 24 16) (field x 0 24))
    else if op == tsbk_loc_reg_rsp
    then some
        (loc_reg_rsp (field x 56 2) (field x 40 16) (field x 32 8) (field x 24 8) (field x 0 24))
    else if op == tsbk_u_reg_rsp
    then some (u_reg_rsp (field x 60 2) (field x 48 12) (field x 24 24) (field x 0 24))
    else none

-- A block with the right check word and the standard manufacturer.
pub decode_message : List ℕ → Option Message
decode_message bytes = elim (parse_tsbk bytes) [
  | none ↦ none
  | some b ↦ if b.mfid == 0 then decode_args b.opcode b.args else none
]

pub decode_message-build :
    (lb : Bool) (opcode args : ℕ)
    → opcode < 64
    → args < 2 ^ 64
    → decode_message (build_tsbk lb opcode 0 args) ≡ decode_args opcode args
unfolding decode_message
decode_message-build lb opcode args ho ha =
    rw (parse-build_tsbk lb opcode 0 args ho (omega arith) ha, decode_message)

pub channel_field-sum :
    (chan_id chan_num : ℕ)
    → channel_field chan_id chan_num ≡ chan_id % 16 * 2 ^ 12 + chan_num % 2 ^ 12
unfolding channel_field
channel_field-sum chan_id chan_num =
    rw (bit_and_mask 4 chan_id, bit_and_mask 12 chan_num)
      (omega (
        arith,
        bit_or_above 12 (chan_id % 16 * 2 ^ 12 % 2 ^ 64) (chan_num % 2 ^ 12) (omega arith)
            (omega arith),
      ))

-- Two parts of the argument word, the second below the lowest bit of the first.
pub or_sum : (k a b x y : ℕ) → a ≡ x → b ≡ y → x % 2 ^ k ≡ 0 → y < 2 ^ k → bit_or a b ≡ x + y
or_sum k a b x y ea eb low fits = rw (ea, eb) (bit_or_above k x y low fits)
