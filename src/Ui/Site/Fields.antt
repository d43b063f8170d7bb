-- ===== src/Ui/Site/Fields.antt =====
-- The ranges that the fields of src/ui/SitePanel.cpp keep.
use site_sim.Base.{ℕ, ◌%◌, ◌^◌, ◌≤◌, ◌<◌, Option, none, some, arith}
use site_sim.Base.Int.{pos_part}
use site_sim.Tx.Control.{SiteConfig}
use site_sim.Ui.Site.{Panel, Entries, clamp, entered, edit_fields}

-- The fields of the blocks of the control channel hold these members whole.
pub record IsPlan {Double : Type 0} (cfg : SiteConfig Double) : Type 0 where
  pub nac : cfg.nac < 2 ^ 12
  pub wacn : cfg.wacn < 2 ^ 20
  pub sysid : cfg.sysid < 2 ^ 12
  pub rfssid : cfg.rfssid < 2 ^ 8
  pub siteid : cfg.siteid < 2 ^ 8
  pub chan_id : cfg.chan_id < 16
  pub ch_spac_min : 1 ≤ cfg.ch_spac_units
  pub ch_spac_max : cfg.ch_spac_units < 2 ^ 10
  pub v_chan_num : cfg.v_chan_num < 2 ^ 16

entered_below :
    {A : Type 0} (limit : ℕ) (f : A → ℕ) (o : Option A) (old : ℕ)
    → ((a : A) → f a < limit)
    → old < limit
    → entered f o old < limit
entered_below limit f none old all h = h
entered_below limit f (some a) old all h = all a

entered_from :
    {A : Type 0} (low : ℕ) (f : A → ℕ) (o : Option A) (old : ℕ)
    → ((a : A) → low ≤ f a)
    → low ≤ old
    → low ≤ entered f o old
entered_from low f none old all h = h
entered_from low f (some a) old all h = all a

module _ {Text Double : Type 0} where
  -- Whatever is entered in a frame, the members stay in the ranges of the control channel's fields.
  pub edit_fields-IsPlan :
      (band_selector from_mhz : Double → Double) (w : Entries Text Double) (p : Panel Text Double)
      → IsPlan p.cfg
      → IsPlan (edit_fields band_selector from_mhz w p).cfg
  unfolding edit_fields
  edit_fields-IsPlan band_selector from_mhz w p is = record {
    nac = is.nac;
    wacn = is.wacn;
    sysid = is.sysid;
    rfssid = entered_below _ (clamp 0 255) w.rfssid _ (λ x. omega arith) is.rfssid;
    siteid = entered_below _ (clamp 0 255) w.siteid _ (λ x. omega arith) is.siteid;
    chan_id = entered_below _ (clamp 0 15) w.chan_id _ (λ x. omega arith) is.chan_id;
    ch_spac_min = entered_from _ (clamp 1 1023) w.ch_spac _ (λ x. omega arith) is.ch_spac_min;
    ch_spac_max = entered_below _ (clamp 1 1023) w.ch_spac _ (λ x. omega arith) is.ch_spac_max;
    v_chan_num =
        entered_below _ (λ x. pos_part x % 2 ^ 16) w.v_chan _ (λ x. omega arith) is.v_chan_num;
  }
