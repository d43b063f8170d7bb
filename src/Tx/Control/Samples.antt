-- ===== src/Tx/Control/Samples.antt =====
-- Data that tests share: whole numbers in place of `double`, and a site of src/tx/ControlChannel.hpp.
use site_sim.Base.{ℕ, ◌+◌, ◌*◌, ◌/◌, ◌%◌, ◌^◌, true}
use site_sim.Base.Int.{pos}
use site_sim.Tx.Control.{Doubles, SiteConfig}

abbrev pub whole : Doubles ℕ
whole = record {
  literal = λ n. n;
  mul = λ a b. a * b;
  add = λ a b. a + b;
  div = λ a b. a / b;
  to_uint64 = λ n. n % 2 ^ 64;
  to_int16 = λ n. pos (n % 2 ^ 15);
  to_uint32 = λ n. n % 2 ^ 32;
}

abbrev pub site : SiteConfig ℕ
site = record {
  nac = 0x293;
  wacn = 0xBEE00;
  sysid = 0x2D1;
  rfssid = 1;
  siteid = 1;
  cc_freq_hz = 146000000;
  tx_offset_mhz = 5;
  gain_db = 40;
  amp_enabled = true;
  tx_offset_units = pos 0;
  chan_id = 0;
  bw_units = 100;
  ch_spac_units = 100;
  vchan_base_freq_hz = 145000000;
  v_chan_num = 16;
}
