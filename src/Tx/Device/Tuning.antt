-- ===== src/Tx/Device/Tuning.antt =====
-- The settings of src/tx/SoapyTx.cpp: `setFrequency`, `setGain`, `setAmpEnabled` and `setSampleRate`, and
-- what `open` and `close` do with them. A device is the settings that it took, one after the other: what an
-- overall gain does to the gain of its amplifier is SoapySDR's.
use site_sim.Base.{Option, none, some, Bool, true, false, List, [], ◌∷◌, if◌then◌else◌}

-- `m_sampleRate`, `m_frequency`, `m_gain` and `m_ampEnabled`.
pub record Settings (Double : Type 0) : Type 0 where
  pub sample_rate : Double
  pub frequency : Double
  pub gain : Double
  pub amp_enabled : Bool

-- A setting that a device took without an exception. `amp_gain` is that of "AMP".
pub data Setting (Double : Type 0) : Type 0 where
  sample_rate : Double → Setting Double
  frequency : Double → Setting Double
  gain : Double → Setting Double
  amp_gain : Double → Setting Double

-- The settings, and `m_device` with those that it took since it was made, the last first.
pub record Tuner (Double : Type 0) : Type 0 where
  pub settings : Settings Double
  pub device : Option (List (Setting Double))

-- How the calls of `open` end: without a device, or with one, whose amplifier takes its setting or not.
pub data Opening : Type 0 where
  no_device : Opening
  device_made : Bool → Opening

-- The calls; a flag says whether the device takes the setting.
pub data Call (Double : Type 0) : Type 0 where
  set_sample_rate : Bool → Double → Call Double
  set_frequency : Bool → Double → Call Double
  set_gain : Bool → Double → Call Double
  set_amp_enabled : Bool → Bool → Call Double
  opens : Opening → Call Double
  closes : Call Double

-- A device that takes a setting, or throws, and is as it was.
abbrev pub take_setting :
    {Double : Type 0}
    → Bool
    → Setting Double
    → Option (List (Setting Double))
    → Option (List (Setting Double))
take_setting takes s none = none
take_setting false s (some d) = some d
take_setting true s (some d) = some (s ∷ d)

module _ {Double : Type 0} (fourteen nought : Double) where
  -- The gain of the amplifier.
  abbrev pub amp_db : Bool → Double
  amp_db enabled = if enabled then fourteen else nought

  -- What the settings of `open` make of a new device.
  abbrev pub tuned : Bool → Settings Double → List (Setting Double)
  tuned takes s =
      let three = gain s.gain ∷ frequency s.frequency ∷ sample_rate s.sample_rate ∷ [] in
      if takes then amp_gain (amp_db s.amp_enabled) ∷ three else three

  unfoldable pub call : Call Double → Tuner Double → Tuner Double
  call (set_sample_rate takes sps) t = record {
    settings = record t.settings { sample_rate = sps };
    device = take_setting takes (sample_rate sps) t.device;
  }
  call (set_frequency takes hz) t = record {
    settings = record t.settings { frequency = hz };
    device = take_setting takes (frequency hz) t.device;
  }
  call (set_gain takes db) t = record {
    settings = record t.settings { gain = db };
    device = take_setting takes (gain db) t.device;
  }
  call (set_amp_enabled takes enabled) t = record {
    settings = record t.settings { amp_enabled = enabled };
    device = take_setting takes (amp_gain (amp_db enabled)) t.device;
  }
  call (opens no_device) t = record t { device = none }
  call (opens (device_made takes)) t = record t { device = some (tuned takes t.settings) }
  call closes t = record t { device = none }
