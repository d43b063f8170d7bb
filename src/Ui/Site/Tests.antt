-- ===== src/Ui/Site/Tests.antt =====
-- Instances for src/ui/SitePanel.cpp.
use site_sim.Base.{ℕ, ◌*◌, ◌≡◌, refl, [], ◌∷◌, map, none, some, false, arith}
use site_sim.Base.Int.{pos, negsuc}
use site_sim.P25.Tsbk.Messages.Decode.{net_status, rfss_status, adj_status, iden_up, decode_message}
use site_sim.Tx.Control.{SiteConfig, configure, sys_tsbks}
use site_sim.Tx.Control.Samples.{whole, site}
use site_sim.Ui.Site.{Entries, edit_fields, apply_identity}
use site_sim.Ui.Site.Fields.{IsPlan, edit_fields-IsPlan}
use site_sim.Ui.Site.Identity.{taken, apply_identity_lem}
use site_sim.Ui.Site.Announce.{sys_tsbks-configure}
use site_sim.Ui.Site.Store.{writable, save_config, load_config}
use site_sim.Ui.Site.Store.Reload.{IsConfig, ConvertsBack, load_config-save_config}
use site_sim.Ui.Site.Samples.{hex, panel, json}

site-IsConfig : IsConfig site
site-IsConfig = record {
  nac = omega arith;
  wacn = omega arith;
  sysid = omega arith;
  rfssid = omega arith;
  siteid = omega arith;
  chan_id = omega arith;
  bw_units = omega arith;
  ch_spac_units = omega arith;
  v_chan_num = omega arith;
}

json-ConvertsBack : ConvertsBack json
json-ConvertsBack = record {
  get_number = λ w n h. refl;
  get_real = λ x. refl;
  get_boolean = λ b. refl;
}

-- A panel with another configuration loads the one that was saved.
abbrev other : SiteConfig ℕ
other = record site { nac = 1; sysid = 2; tx_offset_units = pos 9; v_chan_num = 3 }

load_config-save_config_example :
    load_config json (save_config json writable site none).1 other
    ≡ record site { tx_offset_units = pos 9 }
load_config-save_config_example =
    load_config-save_config json json-ConvertsBack site other none site-IsConfig refl

site-IsPlan : IsPlan site
site-IsPlan = record {
  nac = omega arith;
  wacn = omega arith;
  sysid = omega arith;
  rfssid = omega arith;
  siteid = omega arith;
  chan_id = omega arith;
  ch_spac_min = omega arith;
  ch_spac_max = omega arith;
  v_chan_num = omega arith;
}

-- A WACN that does not convert, and a NAC of more than 12 bits.
apply_identity_example : apply_identity hex panel ≡ record site {
  nac = taken 12 (some 0x1293) 0x293;
  wacn = taken 20 none 0xBEE00;
  sysid = taken 12 none 0x2D1;
}
apply_identity_example = apply_identity_lem hex panel

-- Values out of range.
abbrev entries : Entries ℕ ℕ
entries = record {
  nac = 1;
  wacn = 2;
  sysid = 3;
  rfssid = some (pos 300);
  siteid = some (negsuc 4);
  tx_offset = none;
  presets = none ∷ some 5 ∷ [];
  gain = none;
  amp = false;
  chan_id = some (pos 16);
  base_freq_mhz = some 145;
  ch_spac = some (pos 0);
  v_chan = some (pos 65536);
}

edit_fields-IsPlan_example :
    IsPlan (edit_fields (λ hz. hz) (λ mhz. mhz * 1000000) entries panel).cfg
edit_fields-IsPlan_example =
    edit_fields-IsPlan (λ hz. hz) (λ mhz. mhz * 1000000) entries panel site-IsPlan

sys_tsbks-configure_example :
    map decode_message (sys_tsbks whole (configure whole site))
    ≡ some (iden_up 0 100 (configure whole site).tx_offset_units 100 29000000)
      ∷ some (net_status 0xBEE00 0x2D1 (record { id = 0; num = 0 }) 0)
      ∷ some (rfss_status 0 0x2D1 1 1 (record { id = 0; num = 0 }) 0)
      ∷ some (adj_status 0x2D1 1 2 (record { id = 0; num = 0 }) 0)
      ∷ []
unfolding configure
sys_tsbks-configure_example =
    sys_tsbks-configure whole site site-IsPlan (omega arith) (omega arith) (omega arith)
      (omega arith)
