-- ===== src/Ui/Band.antt =====
-- `bands` and `BandSelector` of src/ui/BandSelector.hpp. The widgets are Dear ImGui's: a call of
-- `render` takes what they return. `double` is any type with the comparisons and the constants that
-- the code uses; frequencies are not NaN. The text of the input field is given by `print` and read by
-- `parse`, which stands for `atof` and the factor to Hz.
pub mod Limits
mod Tests
use site_sim.Base.{
  ℕ, zero, suc, ◌+◌, ◌*◌, List, [], ◌∷◌, Option, none, some, Bool, true, false, ◌&&◌, ◌||◌,
  get_elem?, if◌then◌else◌,
}

pub record Frequencies (Double Text : Type 0) : Type 0 where
  pub hz : ℕ → Double
  pub less : Double → Double → Bool
  pub at_most : Double → Double → Bool
  -- `std::abs(x - y) > 0.5`
  pub differs : Double → Double → Bool
  pub print : Double → Text
  pub parse : Text → Double

-- `Band`
pub record Band (Double : Type 0) : Type 0 where
  pub min_hz : Double
  pub max_hz : Double

-- The members of `BandSelector`. The index -1 is `none`.
pub record Selector (Double Text : Type 0) : Type 0 where
  pub freq_hz : Double
  pub band_idx : Option ℕ
  pub out_of_band : Bool
  pub buf : Text

-- What the widgets return in a frame: the bands that are clicked in the list, the text of the field
-- if it was edited, and the preset buttons that are pressed.
pub record Widgets (Text : Type 0) : Type 0 where
  pub selected : ℕ → Bool
  pub edited : Option Text
  pub pressed : ℕ → Bool

module _ {Double Text : Type 0} (f : Frequencies Double Text) where
  -- `kBands`
  abbrev pub bands : List (Band Double)
  bands =
      record { min_hz = f.hz 144000000; max_hz = f.hz 148000000 }
      ∷ record { min_hz = f.hz 420000000; max_hz = f.hz 450000000 }
      ∷ []

  -- The loop of `findBand`, from an index on.
  abbrev pub find_from : ℕ → List (Band Double) → Double → Option ℕ
  find_from i [] freq = none
  find_from i (b ∷ rest) freq =
      if f.at_most b.min_hz freq && f.at_most freq b.max_hz
      then some i
      else find_from (i + 1) rest freq

  -- `findBand`
  pub find_band : Double → Option ℕ
  find_band freq = find_from 0 bands freq

  abbrev clamp : Double → Option (Band Double) → Double
  clamp freq none = freq
  clamp freq (some b) =
      if f.less freq b.min_hz then b.min_hz else if f.less b.max_hz freq then b.max_hz else freq

  -- `clampToBand`
  pub clamp_to_band : Double → ℕ → Double
  clamp_to_band freq band_idx = clamp freq (get_elem? bands band_idx)

  -- The constructor. The default frequency is 145.050 MHz.
  pub new_selector : Selector Double Text
  new_selector = record {
    freq_hz = f.hz 145050000;
    band_idx = elim (find_band (f.hz 145050000)) [ none ↦ some 1 | some i ↦ some i ];
    out_of_band = false;
    buf = f.print (f.hz 145050000);
  }

  -- The part of `render` that follows a frequency that the caller changed.
  pub sync_external : Selector Double Text → Double → Selector Double Text
  sync_external s freq =
      if f.differs freq s.freq_hz
      then record s {
        freq_hz = freq;
        band_idx = elim (find_band freq) [ none ↦ s.band_idx | some i ↦ some i ];
        buf = f.print freq;
      }
      else s

  -- A frame in progress: the members, `freqHz` and `changed`.
  abbrev pub Frame : Type 0
  Frame = Selector Double Text × Double × Bool

  -- The loop over the entries of the list of bands, for the entries from an index on.
  pub select_bands : (ℕ → Bool) → ℕ → ℕ → Frame → Frame
  select_bands selected i zero frame = frame
  select_bands selected i (suc n) (s, freq, changed) =
      let clamped = clamp_to_band s.freq_hz i in
      let chosen = record s { freq_hz = clamped; band_idx = some i; buf = f.print clamped } in
      select_bands selected (i + 1) n
        (if selected i then (chosen, clamped, true) else (s, freq, changed))

  abbrev pub selected_band : Selector Double Text → Option (Band Double)
  selected_band s = elim s.band_idx [ none ↦ none | some i ↦ get_elem? bands i ]

  -- An edit of the field. An index without a band, which the code does not have, changes nothing.
  pub edit_field : Option Text → Frame → Frame
  edit_field none frame = frame
  edit_field (some text) (s, freq, changed) =
      let entered = f.parse text in
      elim (selected_band s) [
        | none ↦ (s, freq, changed)
        | some b ↦
            if f.less entered b.min_hz || f.less b.max_hz entered
            then (record s { out_of_band = true; buf = f.print s.freq_hz }, freq, changed)
            else (record s { out_of_band = false; freq_hz = entered; buf = text }, entered, true)
      ]

  -- The presets of a band.
  abbrev pub presets : Option ℕ → List Double
  presets none = []
  presets (some zero) = f.hz 145050000 ∷ f.hz 146520000 ∷ f.hz 147000000 ∷ f.hz 146000000 ∷ []
  presets (some (suc zero)) = f.hz 446000000 ∷ f.hz 446500000 ∷ f.hz 445000000 ∷ f.hz 440000000 ∷ []
  presets (some (suc (suc i))) = []

  -- The loop of `renderQuickPick` over the buttons.
  pub press_presets : (ℕ → Bool) → ℕ → List Double → Frame → Frame
  press_presets pressed i [] frame = frame
  press_presets pressed i (preset ∷ rest) (s, freq, changed) =
      let picked : Selector Double Text = record {
        freq_hz = preset;
        band_idx = find_band preset;
        out_of_band = false;
        buf = f.print preset;
      } in
      press_presets pressed (i + 1) rest
        (if pressed i then (picked, preset, true) else (s, freq, changed))

  -- `render`
  pub render : Widgets Text → Selector Double Text → Double → Frame
  render w s freq =
      let chosen = select_bands w.selected 0 2 (sync_external s freq, freq, false) in
      let edited = edit_field w.edited chosen in
      press_presets w.pressed 0 (presets edited.0.band_idx) edited
