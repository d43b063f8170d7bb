-- ===== src/Ui/Site/Store.antt =====
-- `saveConfig` and `loadConfig` of src/ui/SitePanel.cpp. The JSON library is a parameter: its values,
-- the conversions to and from them, and the text of an object. An object is a map from keys to values.
pub mod Reload
use Prim.Native.String.{String}
use text.Mathlib.Text.{◌==◌}
use site_sim.Base.{ℕ, List, [], ◌∷◌, Option, none, some, Bool, true, false, if◌then◌else◌}
use site_sim.Tx.Control.{SiteConfig}

-- Values of `json`, and what its conversions do: `get_number w` is `get` of an unsigned type of w bits.
-- `none` is an exception. `parse` also gives `none` for a text that is no object: `value` then throws.
pub record Json (Value Text Double : Type 0) : Type 0 where
  pub number : ℕ → Value
  pub real : Double → Value
  pub boolean : Bool → Value
  pub get_number : ℕ → Value → Option ℕ
  pub get_real : Value → Option Double
  pub get_boolean : Value → Option Bool
  pub dump : (String → Option Value) → Text
  pub parse : Text → Option (String → Option Value)

-- What is shown in `m_statusMsg`.
pub data Status : Type 0 where
  no_status : Status
  config_saved : Status
  save_failed : Status
  applied : Status

-- What the system does with the path of `configPath`: the directories cannot be made, the file cannot
-- be opened for writing, or both go well.
pub data Disk : Type 0 where
  no_directory : Disk
  no_file : Disk
  writable : Disk

module _ {Value Text Double : Type 0} (json : Json Value Text Double) where
  abbrev pub Object : Type 0
  Object = String → Option Value

  -- `j[key] = value`
  abbrev pub insert : String → Value → Object → Object
  insert key v j other = if other == key then some v else j other

  -- `j` of `saveConfig`.
  pub saved_object : SiteConfig Double → Object
  saved_object cfg = insert "vChanNum" (json.number cfg.v_chan_num) (
      insert "vchanBaseFreqHz" (json.real cfg.vchan_base_freq_hz) (
        insert "chSpacUnits" (json.number cfg.ch_spac_units) (
          insert "bwUnits" (json.number cfg.bw_units) (
            insert "chanId" (json.number cfg.chan_id) (
              insert "ampEnabled" (json.boolean cfg.amp_enabled) (
                insert "gainDb" (json.real cfg.gain_db) (
                  insert "txOffsetMHz" (json.real cfg.tx_offset_mhz) (
                    insert "ccFreqHz" (json.real cfg.cc_freq_hz) (
                      insert "siteid" (json.number cfg.siteid) (
                        insert "rfssid" (json.number cfg.rfssid) (
                          insert "sysid" (json.number cfg.sysid) (
                            insert "wacn" (json.number cfg.wacn)
                              (insert "nac" (json.number cfg.nac) (λ key. none))))))))))))))

  -- `saveConfig`: the status and the text of the file. A stream that is not open takes the text and
  -- says nothing.
  pub save_config : Disk → SiteConfig Double → Option Text → Status × Option Text
  save_config no_directory cfg file = (save_failed, file)
  save_config no_file cfg file = (config_saved, file)
  save_config writable cfg file = (config_saved, some (json.dump (saved_object cfg)))

  -- `j.value(key, member)`, stored in the member by `put`; `none` is an exception.
  abbrev pub load_field :
      {A : Type 0}
      → Object
      → String
      → (Value → Option A)
      → (A → SiteConfig Double → SiteConfig Double)
      → SiteConfig Double
      → Option (SiteConfig Double)
  load_field j key get put cfg = elim (j key) [
    | none ↦ some cfg
    | some v ↦ elim (get v) [ none ↦ none | some a ↦ some (put a cfg) ]
  ]

  -- The assignments of `loadConfig`.
  abbrev pub load_fields : Object → List (SiteConfig Double → Option (SiteConfig Double))
  load_fields j =
      load_field j "nac" (json.get_number 16) (λ n cfg. record cfg { nac = n })
      ∷ load_field j "wacn" (json.get_number 32) (λ n cfg. record cfg { wacn = n })
      ∷ load_field j "sysid" (json.get_number 16) (λ n cfg. record cfg { sysid = n })
      ∷ load_field j "rfssid" (json.get_number 8) (λ n cfg. record cfg { rfssid = n })
      ∷ load_field j "siteid" (json.get_number 8) (λ n cfg. record cfg { siteid = n })
      ∷ load_field j "ccFreqHz" json.get_real (λ x cfg. record cfg { cc_freq_hz = x })
      ∷ load_field j "txOffsetMHz" json.get_real (λ x cfg. record cfg { tx_offset_mhz = x })
      ∷ load_field j "gainDb" json.get_real (λ x cfg. record cfg { gain_db = x })
      ∷ load_field j "ampEnabled" json.get_boolean (λ b cfg. record cfg { amp_enabled = b })
      ∷ load_field j "chanId" (json.get_number 8) (λ n cfg. record cfg { chan_id = n })
      ∷ load_field j "bwUnits" (json.get_number 16) (λ n cfg. record cfg { bw_units = n })
      ∷ load_field j "chSpacUnits" (json.get_number 16) (λ n cfg. record cfg { ch_spac_units = n })
      ∷ load_field j "vchanBaseFreqHz" json.get_real
          (λ x cfg. record cfg { vchan_base_freq_hz = x })
      ∷ load_field j "vChanNum" (json.get_number 16) (λ n cfg. record cfg { v_chan_num = n })
      ∷ []

-- The assignments one after the other, up to the first exception.
pub load_loop :
    {Double : Type 0}
    → List (SiteConfig Double → Option (SiteConfig Double))
    → SiteConfig Double
    → SiteConfig Double
load_loop [] cfg = cfg
load_loop (field ∷ fields) cfg = elim (field cfg) [ none ↦ cfg | some cfg' ↦ load_loop fields cfg' ]

-- `loadConfig`, with the text of the file if it can be opened.
pub load_config :
    {Value Text Double : Type 0}
    → Json Value Text Double
    → Option Text
    → SiteConfig Double
    → SiteConfig Double
load_config json none cfg = cfg
load_config json (some text) cfg = elim (json.parse text) [
  | none ↦ cfg
  | some j ↦ load_loop (load_fields json j) cfg
]
