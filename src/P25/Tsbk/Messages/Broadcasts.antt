-- ===== src/P25/Tsbk/Messages/Broadcasts.antt =====
-- The broadcasts of the system read back.
use site_sim.Base.{ℕ, ◌+◌, ◌*◌, ◌/◌, ◌%◌, ◌^◌, ◌<◌, ◌≡◌, refl, ap, ◌∙◌, some, true, arith}
use site_sim.Base.Int.{ℤ, pos, negsuc, pos_part, neg_part}
use site_sim.Bits.{bit_and_mask, bit_or_above}
use site_sim.P25.Tsbk.Messages.{
  tsbk_net_sts_bcast, net_status_args, build_net_status_bcast, tsbk_rfss_sts_bcast,
  rfss_status_args, build_rfss_status_bcast, tsbk_adj_sts_bcast, adj_status_args,
  build_adj_sts_bcast, tsbk_iden_up, offset_field, iden_up_args, build_iden_up,
}
use site_sim.P25.Tsbk.Messages.Decode.{
  net_status, rfss_status, adj_status, iden_up, signed_offset, decode_args, decode_message,
  decode_message-build, channel_field-sum, or_sum,
}

net_status_args-sum :
    (wacn sys_id chan_id chan_num ssc : ℕ)
    → ssc < 2 ^ 8
    → net_status_args wacn sys_id chan_id chan_num ssc
      ≡ wacn % 2 ^ 20 * 2 ^ 36
        + sys_id % 2 ^ 12 * 2 ^ 24
        + (chan_id % 16 * 2 ^ 12 + chan_num % 2 ^ 12) * 2 ^ 8
        + ssc
unfolding net_status_args
net_status_args-sum wacn sys_id chan_id chan_num ssc hs =
    or_sum 8 _ _ _ _
      (or_sum 24 _ _ _ _
        (or_sum 36 _ _ _ _ (omega (arith, bit_and_mask 20 wacn))
          (omega (arith, bit_and_mask 12 sys_id)) (omega arith) (omega arith))
        (omega (arith, channel_field-sum chan_id chan_num)) (omega arith) (omega arith))
      refl (omega arith) (omega arith)

-- The network status reads as its fields, cut to their widths, if the service class is a byte.
pub decode-net_status :
    (wacn sys_id chan_id chan_num ssc : ℕ)
    → ssc < 2 ^ 8
    → decode_message (build_net_status_bcast wacn sys_id chan_id chan_num ssc)
      ≡ some (
          net_status
            (wacn % 2 ^ 20)
            (sys_id % 2 ^ 12)
            (record { id = chan_id % 16; num = chan_num % 2 ^ 12 })
            ssc)
unfolding build_net_status_bcast decode_args
decode-net_status wacn sys_id chan_id chan_num ssc hs =
    let sum = net_status_args-sum wacn sys_id chan_id chan_num ssc hs in
    decode_message-build true tsbk_net_sts_bcast (net_status_args wacn sys_id chan_id chan_num ssc)
      (omega arith) (omega (arith, sum))
    ∙ ground (arith, sum)

rfss_status_args-sum :
    (lrar sys_id rfss_id site_id chan_id chan_num ssc : ℕ)
    → lrar < 2 ^ 8
    → rfss_id < 2 ^ 8
    → site_id < 2 ^ 8
    → ssc < 2 ^ 8
    → rfss_status_args lrar sys_id rfss_id site_id chan_id chan_num ssc
      ≡ lrar * 2 ^ 56
        + sys_id % 2 ^ 12 * 2 ^ 40
        + rfss_id * 2 ^ 32
        + site_id * 2 ^ 24
        + (chan_id % 16 * 2 ^ 12 + chan_num % 2 ^ 12) * 2 ^ 8
        + ssc
unfolding rfss_status_args
rfss_status_args-sum lrar sys_id rfss_id site_id chan_id chan_num ssc hl hr hi hs =
    or_sum 8 _ _ _ _
      (or_sum 24 _ _ _ _
        (or_sum 32 _ _ _ _
          (or_sum 40 _ _ _ _
            (or_sum 56 _ _ _ _ (omega arith) (omega (arith, bit_and_mask 12 sys_id)) (omega arith)
              (omega arith))
            (omega arith) (omega arith) (omega arith))
          (omega arith) (omega arith) (omega arith))
        (omega (arith, channel_field-sum chan_id chan_num)) (omega arith) (omega arith))
      refl (omega arith) (omega arith)

-- The RFSS status reads as its fields, cut to their widths, if those that the type makes bytes are.
pub decode-rfss_status :
    (lrar sys_id rfss_id site_id chan_id chan_num ssc : ℕ)
    → lrar < 2 ^ 8
    → rfss_id < 2 ^ 8
    → site_id < 2 ^ 8
    → ssc < 2 ^ 8
    → decode_message (build_rfss_status_bcast lrar sys_id rfss_id site_id chan_id chan_num ssc)
      ≡ some (
          rfss_status lrar
            (sys_id % 2 ^ 12)
            rfss_id
            site_id
            (record { id = chan_id % 16; num = chan_num % 2 ^ 12 })
            ssc)
unfolding build_rfss_status_bcast decode_args
decode-rfss_status lrar sys_id rfss_id site_id chan_id chan_num ssc hl hr hi hs =
    let sum = rfss_status_args-sum lrar sys_id rfss_id site_id chan_id chan_num ssc hl hr hi hs in
    decode_message-build true tsbk_rfss_sts_bcast
      (rfss_status_args lrar sys_id rfss_id site_id chan_id chan_num ssc) (omega arith)
      (omega (arith, sum))
    ∙ ground (arith, sum)

adj_status_args-sum :
    (adj_sys_id rfss_id site_id chan_id chan_num ssc : ℕ)
    → rfss_id < 2 ^ 8
    → site_id < 2 ^ 8
    → ssc < 2 ^ 8
    → adj_status_args adj_sys_id rfss_id site_id chan_id chan_num ssc
      ≡ adj_sys_id % 2 ^ 12 * 2 ^ 40
        + rfss_id * 2 ^ 32
        + site_id * 2 ^ 24
        + (chan_id % 16 * 2 ^ 12 + chan_num % 2 ^ 12) * 2 ^ 8
        + ssc
unfolding adj_status_args
adj_status_args-sum adj_sys_id rfss_id site_id chan_id chan_num ssc hr hi hs =
    or_sum 8 _ _ _ _
      (or_sum 24 _ _ _ _
        (or_sum 32 _ _ _ _
          (or_sum 40 _ _ _ _ (omega (arith, bit_and_mask 12 adj_sys_id)) (omega arith) (omega arith)
            (omega arith))
          (omega arith) (omega arith) (omega arith))
        (omega (arith, channel_field-sum chan_id chan_num)) (omega arith) (omega arith))
      refl (omega arith) (omega arith)

-- The adjacent status reads as its fields, cut to their widths, if those that the type makes bytes
-- are.
pub decode-adj_status :
    (adj_sys_id rfss_id site_id chan_id chan_num ssc : ℕ)
    → rfss_id < 2 ^ 8
    → site_id < 2 ^ 8
    → ssc < 2 ^ 8
    → decode_message (build_adj_sts_bcast adj_sys_id rfss_id site_id chan_id chan_num ssc)
      ≡ some (
          adj_status
            (adj_sys_id % 2 ^ 12)
            rfss_id
            site_id
            (record { id = chan_id % 16; num = chan_num % 2 ^ 12 })
            ssc)
unfolding build_adj_sts_bcast decode_args
decode-adj_status adj_sys_id rfss_id site_id chan_id chan_num ssc hr hi hs =
    let sum = adj_status_args-sum adj_sys_id rfss_id site_id chan_id chan_num ssc hr hi hs in
    decode_message-build true tsbk_adj_sts_bcast
      (adj_status_args adj_sys_id rfss_id site_id chan_id chan_num ssc) (omega arith)
      (omega (arith, sum))
    ∙ ground (arith, sum)

offset_field-lt : (offset : ℤ) → offset_field offset < 2 ^ 9
unfolding offset_field
offset_field-lt (pos n) = ground (arith, bit_and_mask 8 n, bit_or_above 8 256 (n % 2 ^ 8) refl)
offset_field-lt (negsuc n) = omega (arith, bit_and_mask 8 (n + 1))

signed_offset-field :
    (offset : ℤ)
    → pos_part offset < 2 ^ 8
    → neg_part offset < 2 ^ 8
    → signed_offset (offset_field offset) ≡ offset
unfolding offset_field
signed_offset-field (pos n) hp hn =
    ground (arith, bit_and_mask 8 n, bit_or_above 8 256 (n % 2 ^ 8) refl)
signed_offset-field (negsuc n) hp hn = ground (arith, bit_and_mask 8 (n + 1))

iden_up_args-sum :
    (iden bw_units : ℕ) (offset_units : ℤ) (chspac_units base_freq_hz : ℕ)
    → iden_up_args iden bw_units offset_units chspac_units base_freq_hz
      ≡ iden % 2 ^ 4 * 2 ^ 60
        + bw_units % 2 ^ 9 * 2 ^ 51
        + offset_field offset_units * 2 ^ 42
        + chspac_units % 2 ^ 10 * 2 ^ 32
        + (base_freq_hz / 5) % 2 ^ 32
unfolding iden_up_args
iden_up_args-sum iden bw_units offset_units chspac_units base_freq_hz =
    or_sum 32 _ _ _ _
      (or_sum 42 _ _ _ _
        (or_sum 51 _ _ _ _
          (or_sum 60 _ _ _ _ (omega (arith, bit_and_mask 4 iden))
            (omega (arith, bit_and_mask 9 bw_units)) (omega arith) (omega arith))
          (omega (arith, offset_field-lt offset_units)) (omega arith)
          (omega (arith, offset_field-lt offset_units)))
        (omega (arith, bit_and_mask 10 chspac_units)) (omega arith) (omega arith))
      (bit_and_mask 32 (base_freq_hz / 5)) (omega arith) (omega arith)

decode-iden_up_fields :
    (iden bw_units : ℕ) (offset_units : ℤ) (chspac_units base_freq_hz : ℕ)
    → decode_message (build_iden_up iden bw_units offset_units chspac_units base_freq_hz)
      ≡ some (
          iden_up
            (iden % 16)
            (bw_units % 2 ^ 9)
            (signed_offset (offset_field offset_units))
            (chspac_units % 2 ^ 10)
            (base_freq_hz / 5 % 2 ^ 32))
unfolding build_iden_up decode_args
decode-iden_up_fields iden bw_units offset_units chspac_units base_freq_hz =
    let sum = iden_up_args-sum iden bw_units offset_units chspac_units base_freq_hz in
    decode_message-build true tsbk_iden_up
      (iden_up_args iden bw_units offset_units chspac_units base_freq_hz) (omega arith)
      (omega (arith, sum, offset_field-lt offset_units))
    ∙ ground (arith, sum, offset_field-lt offset_units)

-- The channel plan reads as its fields, cut to their widths, with the base frequency in units of
-- 5 Hz, and with the signed offset unchanged if its magnitude is below 256.
pub decode-iden_up :
    (iden bw_units : ℕ) (offset_units : ℤ) (chspac_units base_freq_hz : ℕ)
    → pos_part offset_units < 2 ^ 8
    → neg_part offset_units < 2 ^ 8
    → decode_message (build_iden_up iden bw_units offset_units chspac_units base_freq_hz)
      ≡ some (
          iden_up
            (iden % 16)
            (bw_units % 2 ^ 9)
            offset_units
            (chspac_units % 2 ^ 10)
            (base_freq_hz / 5 % 2 ^ 32))
decode-iden_up iden bw_units offset_units chspac_units base_freq_hz hp hn =
    decode-iden_up_fields iden bw_units offset_units chspac_units base_freq_hz
    ∙ ap
        (λ o. some (
          iden_up (iden % 16) (bw_units % 2 ^ 9) o (chspac_units % 2 ^ 10)
            (base_freq_hz / 5 % 2 ^ 32)))
        (signed_offset-field offset_units hp hn)
