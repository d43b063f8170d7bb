-- ===== src/Ui/Site/Store/Reload.antt =====
-- What a configuration file of src/ui/SitePanel.cpp keeps.
use site_sim.Base.{ℕ, ◌^◌, ◌<◌, ◌≡◌, refl, ◌∙◌, List, ◌∷◌, Option, none, some}
use site_sim.Tx.Control.{SiteConfig}
use site_sim.Ui.Site.Store.{
  Json, writable, Object, saved_object, save_config, load_field, load_fields, load_loop,
  load_config,
}

-- The widths of the members of `SiteConfig`.
pub record IsConfig {Double : Type 0} (cfg : SiteConfig Double) : Type 0 where
  pub nac : cfg.nac < 2 ^ 16
  pub wacn : cfg.wacn < 2 ^ 32
  pub sysid : cfg.sysid < 2 ^ 16
  pub rfssid : cfg.rfssid < 2 ^ 8
  pub siteid : cfg.siteid < 2 ^ 8
  pub chan_id : cfg.chan_id < 2 ^ 8
  pub bw_units : cfg.bw_units < 2 ^ 16
  pub ch_spac_units : cfg.ch_spac_units < 2 ^ 16
  pub v_chan_num : cfg.v_chan_num < 2 ^ 16

-- A value converts back to what it was made from.
pub record ConvertsBack {Value Text Double : Type 0} (json : Json Value Text Double) : Type 0 where
  pub get_number : (w n : ℕ) → n < 2 ^ w → json.get_number w (json.number n) ≡ some n
  pub get_real : (x : Double) → json.get_real (json.real x) ≡ some x
  pub get_boolean : (b : _) → json.get_boolean (json.boolean b) ≡ some b

load_loop_step :
    {Double : Type 0} (field : SiteConfig Double → Option (SiteConfig Double))
    (fields : List (SiteConfig Double → Option (SiteConfig Double))) (cfg cfg' : SiteConfig Double)
    → field cfg ≡ some cfg'
    → load_loop (field ∷ fields) cfg ≡ load_loop fields cfg'
unfolding load_loop
load_loop_step field fields cfg cfg' h = rw h refl

load_loop_stop :
    {Double : Type 0} (field : SiteConfig Double → Option (SiteConfig Double))
    (fields : List (SiteConfig Double → Option (SiteConfig Double))) (cfg : SiteConfig Double)
    → field cfg ≡ none
    → load_loop (field ∷ fields) cfg ≡ cfg
unfolding load_loop
load_loop_stop field fields cfg h = rw h refl

module _ {Value Text Double : Type 0} (json : Json Value Text Double)
    (back : ConvertsBack json) where
  load_loop-saved_object :
      (cfg old : SiteConfig Double)
      → IsConfig cfg
      → load_loop (load_fields json (saved_object json cfg)) old
        ≡ record cfg { tx_offset_units = old.tx_offset_units }
  unfolding saved_object load_loop
  load_loop-saved_object cfg old is =
      rw
        (
          back.get_number 16 cfg.nac is.nac,
          back.get_number 32 cfg.wacn is.wacn,
          back.get_number 16 cfg.sysid is.sysid,
          back.get_number 8 cfg.rfssid is.rfssid,
          back.get_number 8 cfg.siteid is.siteid,
          back.get_real cfg.cc_freq_hz,
          back.get_real cfg.tx_offset_mhz,
          back.get_real cfg.gain_db,
          back.get_boolean cfg.amp_enabled,
          back.get_number 8 cfg.chan_id is.chan_id,
          back.get_number 16 cfg.bw_units is.bw_units,
          back.get_number 16 cfg.ch_spac_units is.ch_spac_units,
          back.get_real cfg.vchan_base_freq_hz,
          back.get_number 16 cfg.v_chan_num is.v_chan_num,
        )
        refl

  -- A configuration that was saved, where its text parses back and the values convert back, is loaded
  -- with every member as it was, but for the offset in units, which stays as it is in the panel.
  pub load_config-save_config :
      (cfg old : SiteConfig Double) (file : Option Text)
      → IsConfig cfg
      → json.parse (json.dump (saved_object json cfg)) ≡ some (saved_object json cfg)
      → load_config json (save_config json writable cfg file).1 old
        ≡ record cfg { tx_offset_units = old.tx_offset_units }
  unfolding load_config save_config
  load_config-save_config cfg old file is parses = rw parses (load_loop-saved_object cfg old is)

  load_config_parsed :
      (text : Text) (j : Object json) (old : SiteConfig Double)
      → json.parse text ≡ some j
      → load_config json (some text) old ≡ load_loop (load_fields json j) old
  unfolding load_config
  load_config_parsed text j old parses = rw (parses, load_config) refl

  -- A file whose WACN does not convert is loaded by half: its NAC is taken, and the other members stay.
  pub load_config_half :
      (text : Text) (j : Object json) (n : ℕ) (v : Value) (old : SiteConfig Double)
      → json.parse text ≡ some j
      → j "nac" ≡ some (json.number n)
      → n < 2 ^ 16
      → j "wacn" ≡ some v
      → json.get_number 32 v ≡ none
      → load_config json (some text) old ≡ record old { nac = n }
  load_config_half text j n v old parses nac small wacn bad =
      load_config_parsed text j old parses
      ∙ load_loop_step _ _ old (record old { nac = n })
          (rw (nac, load_field, back.get_number 16 n small) refl)
      ∙ load_loop_stop _ _ (record old { nac = n }) (rw (wacn, load_field, bad) refl)
