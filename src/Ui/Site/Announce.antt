-- ===== src/Ui/Site/Announce.antt =====
-- What the site of src/ui/SitePanel.cpp says of itself on the air after `Apply`: the four static blocks
-- of `producerThread` of src/tx/ControlChannel.cpp, as a subscriber reads them.
use site_sim.Base.{◌+◌, ◌*◌, ◌/◌, ◌%◌, ◌^◌, ◌<◌, ◌≡◌, [], ◌∷◌, map, some, u8, arith}
use site_sim.Base.Int.{pos_part, neg_part}
use site_sim.P25.Tsbk.Messages.Decode.{net_status, rfss_status, adj_status, iden_up, decode_message}
use site_sim.P25.Tsbk.Messages.Broadcasts.{
  decode-iden_up, decode-net_status, decode-rfss_status, decode-adj_status,
}
use site_sim.Tx.Control.{Doubles, SiteConfig, configure, sys_tsbks}
use site_sim.Ui.Site.Fields.{IsPlan}

module _ {Double : Type 0} (doubles : Doubles Double) where
  -- With the members in the ranges that the panel keeps, a bandwidth of at most 9 bits, an offset of less
  -- than 256 units either way, and a base frequency below 5 * 2 ^ 32 Hz, the four static blocks of the
  -- control channel are read as the panel's members, uncut: the channel plan with the base frequency in
  -- units of 5 Hz, the network, this site, and as its neighbour the site with the next number.
  pub sys_tsbks-configure :
      (cfg : SiteConfig Double)
      → IsPlan cfg
      → cfg.bw_units < 2 ^ 9
      → pos_part (configure doubles cfg).tx_offset_units < 2 ^ 8
      → neg_part (configure doubles cfg).tx_offset_units < 2 ^ 8
      → doubles.to_uint64 cfg.vchan_base_freq_hz < 5 * 2 ^ 32
      → map decode_message (sys_tsbks doubles (configure doubles cfg))
        ≡ some (
            iden_up cfg.chan_id cfg.bw_units
              (configure doubles cfg).tx_offset_units
              cfg.ch_spac_units
              (doubles.to_uint64 cfg.vchan_base_freq_hz / 5))
          ∷ some (net_status cfg.wacn cfg.sysid (record { id = 0; num = 0 }) 0)
          ∷ some (
              rfss_status 0 cfg.sysid cfg.rfssid cfg.siteid
                (record { id = cfg.chan_id; num = 0 })
                0)
          ∷ some (
              adj_status cfg.sysid cfg.rfssid
                ((cfg.siteid + 1) % 2 ^ 8)
                (record { id = 0; num = 0 })
                0)
          ∷ []
  unfolding configure sys_tsbks
  sys_tsbks-configure cfg is bw up down base =
      let chan : cfg.chan_id % 16 ≡ cfg.chan_id = omega (arith, is.chan_id) in
      let sysid : cfg.sysid % 2 ^ 12 ≡ cfg.sysid = omega (arith, is.sysid) in
      let wacn : cfg.wacn % 2 ^ 20 ≡ cfg.wacn = omega (arith, is.wacn) in
      let bandwidth : cfg.bw_units % 2 ^ 9 ≡ cfg.bw_units = omega arith in
      let spacing : cfg.ch_spac_units % 2 ^ 10 ≡ cfg.ch_spac_units =
        omega (arith, is.ch_spac_max) in
      let units : doubles.to_uint64 cfg.vchan_base_freq_hz / 5 % 2 ^ 32
          ≡ doubles.to_uint64 cfg.vchan_base_freq_hz / 5 =
        omega arith in
      let plan =
        decode-iden_up cfg.chan_id cfg.bw_units (configure doubles cfg).tx_offset_units
          cfg.ch_spac_units (doubles.to_uint64 cfg.vchan_base_freq_hz) up down in
      let network = decode-net_status cfg.wacn cfg.sysid 0 0 0 (omega arith) in
      let this_site =
        decode-rfss_status 0 cfg.sysid cfg.rfssid cfg.siteid cfg.chan_id 0 0 (omega arith) is.rfssid
          is.siteid (omega arith) in
      let neighbour =
        decode-adj_status cfg.sysid cfg.rfssid (u8 (cfg.siteid + 1)) 0 0 0 is.rfssid (omega arith)
          (omega arith) in
      cc (plan, network, this_site, neighbour, chan, sysid, wacn, bandwidth, spacing, units)
