-- ===== src/Ui/Site.antt =====
-- `SitePanel` of src/ui/SitePanel.hpp and SitePanel.cpp: the fields of the panel and its buttons. What
-- Dear ImGui's widgets return in a frame is an argument; a text is what `InputText` holds.
pub mod Store
pub mod Fields
pub mod Identity
pub mod Announce
pub mod Samples
mod Tests
use site_sim.Base.{
  ℕ, ◌%◌, ◌^◌, bit_and, min, max, List, [], ◌∷◌, Option, none, some, Bool, true, false,
  if◌then◌else◌,
}
use site_sim.Base.Int.{ℤ, pos, negsuc, pos_part}
use site_sim.Tx.Control.{SiteConfig}
use site_sim.Ui.Site.Store.{Json, Status, no_status, load_config}

-- `snprintf` with "%X", and `std::stoul` with base 16, whose exception is `none`.
pub record Hex (Text : Type 0) : Type 0 where
  pub print : ℕ → Text
  pub stoul : Text → Option ℕ

-- The members that are not references, but for `m_bandSel`.
pub record Panel (Text Double : Type 0) : Type 0 where
  pub cfg : SiteConfig Double
  pub nac_buf : Text
  pub wacn_buf : Text
  pub sysid_buf : Text
  pub status : Status

-- What the fields of the panel return in a frame: the texts, and what was entered or pressed, if it was.
pub record Entries (Text Double : Type 0) : Type 0 where
  pub nac : Text
  pub wacn : Text
  pub sysid : Text
  pub rfssid : Option ℤ
  pub siteid : Option ℤ
  pub tx_offset : Option Double
  pub presets : List (Option Double)
  pub gain : Option Double
  pub amp : Bool
  pub chan_id : Option ℤ
  pub base_freq_mhz : Option Double
  pub ch_spac : Option ℤ
  pub v_chan : Option ℤ

-- `std::min(high, std::max(low, x))` for a `low` of at least 0.
abbrev pub clamp : ℕ → ℕ → ℤ → ℕ
clamp low high x = min high (max low (pos_part x))

-- The last of the presets that are pressed, each of which sets the member.
abbrev pub press : {Double : Type 0} → List (Option Double) → Double → Double
press [] x = x
press (none ∷ rest) x = press rest x
press (some preset ∷ rest) x = press rest preset

-- A member that is set if something was entered.
abbrev pub entered : {A B : Type 0} → (A → B) → Option A → B → B
entered f none old = old
entered f (some a) old = f a

module _ {Text Double : Type 0} where
  -- The fields of `render`, in order, around the band selector, which is given the frequency.
  pub edit_fields :
      (Double → Double)
      → (Double → Double)
      → Entries Text Double
      → Panel Text Double
      → Panel Text Double
  edit_fields band_selector from_mhz w p = record p {
    nac_buf = w.nac;
    wacn_buf = w.wacn;
    sysid_buf = w.sysid;
    cfg = record p.cfg {
      rfssid = entered (clamp 0 255) w.rfssid p.cfg.rfssid;
      siteid = entered (clamp 0 255) w.siteid p.cfg.siteid;
      cc_freq_hz = band_selector p.cfg.cc_freq_hz;
      tx_offset_mhz = press w.presets (entered (λ x. x) w.tx_offset p.cfg.tx_offset_mhz);
      gain_db = entered (λ x. x) w.gain p.cfg.gain_db;
      amp_enabled = w.amp;
      chan_id = entered (clamp 0 15) w.chan_id p.cfg.chan_id;
      vchan_base_freq_hz = entered from_mhz w.base_freq_mhz p.cfg.vchan_base_freq_hz;
      ch_spac_units = entered (clamp 1 1023) w.ch_spac p.cfg.ch_spac_units;
      v_chan_num = entered (λ x. pos_part x % 2 ^ 16) w.v_chan p.cfg.v_chan_num;
    };
  }

  module _ (hex : Hex Text) where
    -- The constructor, with the file of the configuration and the members' initial values.
    pub new_panel :
        {Value : Type 0}
        → Json Value Text Double
        → Option Text
        → SiteConfig Double
        → Panel Text Double
    new_panel json file initial =
        let cfg = load_config json file initial in
        record {
          cfg = cfg;
          nac_buf = hex.print cfg.nac;
          wacn_buf = hex.print cfg.wacn;
          sysid_buf = hex.print cfg.sysid;
          status = no_status;
        }

    -- The `try` of the button `Apply`: the three numbers, up to the first exception. `uint16_t` and
    -- `uint32_t` cut before the mask.
    pub apply_identity : Panel Text Double → SiteConfig Double
    apply_identity p = elim (hex.stoul p.nac_buf) [
      | none ↦ p.cfg
      | some n ↦
          let named = record p.cfg { nac = bit_and (n % 2 ^ 16) 0xFFF } in
          elim (hex.stoul p.wacn_buf) [
            | none ↦ named
            | some w ↦
                let networked = record named { wacn = bit_and (w % 2 ^ 32) 0xFFFFF } in
                elim (hex.stoul p.sysid_buf) [
                  | none ↦ networked
                  | some s ↦ record networked { sysid = bit_and (s % 2 ^ 16) 0xFFF }
                ]
          ]
    ]
