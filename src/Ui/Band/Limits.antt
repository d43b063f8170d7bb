-- ===== src/Ui/Band/Limits.antt =====
-- Which frequencies `BandSelector` of src/ui/BandSelector.hpp gives to its caller.
use site_sim.Base.{
  ℕ, zero, suc, ◌+◌, ◌⊎◌, ◌≡◌, refl, ap, ◌∙◌, inl, inr, List, [], ◌∷◌, Option, none, some, Bool,
  Bool-cases, true, false, ◌&&◌, ◌||◌, All, leb, if◌then◌else◌, arith,
}
use site_sim.Ui.Band.{
  Frequencies, Band, Selector, Widgets, find_band, clamp_to_band, Frame, select_bands, edit_field,
  presets, press_presets, render, sync_external,
}

-- The comparisons of `double` without NaN, exact on whole numbers of hertz.
pub record Laws {Double Text : Type 0} (f : Frequencies Double Text) : Type 0 where
  pub at_most_hz : (m n : ℕ) → f.at_most (f.hz m) (f.hz n) ≡ leb m n
  pub at_most_unless_less : (x y : Double) → f.less x y ≡ false → f.at_most y x ≡ true

or_left : (a b : Bool) → (a || b) ≡ false → a ≡ false
or_left true b h = h
or_left false b h = refl

or_right : (a b : Bool) → (a || b) ≡ false → b ≡ false
or_right true b h = absurd (omega (arith, ap {B = ℕ} (λ t. if t then 1 else 0) h))
or_right false b h = h

module _ {Double Text : Type 0} (f : Frequencies Double Text) (laws : Laws f) where
  -- The frequency lies in one of the amateur bands.
  abbrev pub IsAmateur : Double → Type 0
  IsAmateur freq = (i : ℕ) × (find_band f freq ≡ some i)

  Within : Band Double → Double → Type 0
  Within b freq = (f.at_most b.min_hz freq ≡ true) × (f.at_most freq b.max_hz ≡ true)

  within_first :
      (freq : Double)
      → f.at_most (f.hz 144000000) freq ≡ true
      → f.at_most freq (f.hz 148000000) ≡ true
      → IsAmateur freq
  unfolding find_band
  within_first freq h k = (0, rw (h, k) refl)

  within_second :
      (freq : Double)
      → f.at_most (f.hz 420000000) freq ≡ true
      → f.at_most freq (f.hz 450000000) ≡ true
      → IsAmateur freq
  unfolding find_band
  within_second freq h k =
      elim (Bool-cases (f.at_most (f.hz 144000000) freq && f.at_most freq (f.hz 148000000))) [
        | inl e ↦ (0, rw e refl)
        | inr e ↦ (1, rw (e, h, k) refl)
      ]

  clamp_first : (freq : Double) → IsAmateur (clamp_to_band f freq 0)
  unfolding clamp_to_band
  clamp_first freq = elim (Bool-cases (f.less freq (f.hz 144000000))) [
    | inl e ↦ rw e (
        within_first (f.hz 144000000) (laws.at_most_hz 144000000 144000000)
          (laws.at_most_hz 144000000 148000000))
    | inr e ↦ elim (Bool-cases (f.less (f.hz 148000000) freq)) [
      | inl e' ↦
          rw (e, e')
            (within_first (f.hz 148000000) (laws.at_most_hz 144000000 148000000)
              (laws.at_most_hz 148000000 148000000))
      | inr e' ↦
          rw (e, e')
            (within_first freq (laws.at_most_unless_less freq (f.hz 144000000) e)
              (laws.at_most_unless_less (f.hz 148000000) freq e'))
    ]
  ]

  clamp_second : (freq : Double) → IsAmateur (clamp_to_band f freq 1)
  unfolding clamp_to_band
  clamp_second freq = elim (Bool-cases (f.less freq (f.hz 420000000))) [
    | inl e ↦ rw e (
        within_second (f.hz 420000000) (laws.at_most_hz 420000000 420000000)
          (laws.at_most_hz 420000000 450000000))
    | inr e ↦ elim (Bool-cases (f.less (f.hz 450000000) freq)) [
      | inl e' ↦
          rw (e, e')
            (within_second (f.hz 450000000) (laws.at_most_hz 420000000 450000000)
              (laws.at_most_hz 450000000 450000000))
      | inr e' ↦
          rw (e, e')
            (within_second freq (laws.at_most_unless_less freq (f.hz 420000000) e)
              (laws.at_most_unless_less (f.hz 450000000) freq e'))
    ]
  ]

  -- A frame that reports a change has a frequency of an amateur band, and another has the old one.
  abbrev pub IsLicensed : Double → Frame f → Type 0
  IsLicensed old frame =
      ((frame.2 ≡ true) × IsAmateur frame.1 × (frame.0.freq_hz ≡ frame.1))
      ⊎ ((frame.2 ≡ false) × (frame.1 ≡ old))

  choose-IsLicensed :
      (old : Double) (b : Bool) (x y : Frame f)
      → IsLicensed old x
      → IsLicensed old y
      → IsLicensed old (if b then x else y)
  choose-IsLicensed old true x y h k = h
  choose-IsLicensed old false x y h k = k

  select-IsLicensed :
      (selected : ℕ → Bool) (old : Double) (frame : Frame f)
      → IsLicensed old frame
      → IsLicensed old (select_bands f selected 0 2 frame)
  unfolding select_bands
  select-IsLicensed selected old (s, freq, changed) h =
      choose-IsLicensed old (selected 1) _ _ (inl (refl, clamp_second _, refl)) (
        choose-IsLicensed old (selected 0) _ (s, freq, changed)
          (inl (refl, clamp_first s.freq_hz, refl)) h)

  presets-IsAmateur : (idx : Option ℕ) → All IsAmateur (presets f idx)
  presets-IsAmateur none = tt
  presets-IsAmateur (some zero) = (
    first 145050000 refl refl,
    (first 146520000 refl refl, (first 147000000 refl refl, (first 146000000 refl refl, tt))),
  )
    where
      first : (m : ℕ) → leb 144000000 m ≡ true → leb m 148000000 ≡ true → IsAmateur (f.hz m)
      first m h k =
          within_first (f.hz m) (laws.at_most_hz 144000000 m ∙ h) (laws.at_most_hz m 148000000 ∙ k)
  presets-IsAmateur (some (suc zero)) = (
    second 446000000 refl refl,
    (second 446500000 refl refl, (second 445000000 refl refl, (second 440000000 refl refl, tt))),
  )
    where
      second : (m : ℕ) → leb 420000000 m ≡ true → leb m 450000000 ≡ true → IsAmateur (f.hz m)
      second m h k =
          within_second (f.hz m) (laws.at_most_hz 420000000 m ∙ h) (laws.at_most_hz m 450000000 ∙ k)
  presets-IsAmateur (some (suc (suc i))) = tt

  press-IsLicensed :
      (pressed : ℕ → Bool) (i : ℕ) (list : List Double) (old : Double) (frame : Frame f)
      → All IsAmateur list
      → IsLicensed old frame
      → IsLicensed old (press_presets f pressed i list frame)
  unfolding press_presets
  press-IsLicensed pressed i [] old frame all h = h
  press-IsLicensed pressed i (preset ∷ rest) old (s, freq, changed) all h =
      press-IsLicensed pressed (i + 1) rest old _ all.1
        (choose-IsLicensed old (pressed i) _ (s, freq, changed) (inl (refl, all.0, refl)) h)

  entered_first :
      (entered : Double)
      → (f.less entered (f.hz 144000000) || f.less (f.hz 148000000) entered) ≡ false
      → IsAmateur entered
  entered_first entered h =
      within_first entered (laws.at_most_unless_less entered (f.hz 144000000) (or_left _ _ h))
        (laws.at_most_unless_less (f.hz 148000000) entered (or_right _ _ h))

  entered_second :
      (entered : Double)
      → (f.less entered (f.hz 420000000) || f.less (f.hz 450000000) entered) ≡ false
      → IsAmateur entered
  entered_second entered h =
      within_second entered (laws.at_most_unless_less entered (f.hz 420000000) (or_left _ _ h))
        (laws.at_most_unless_less (f.hz 450000000) entered (or_right _ _ h))

  edit-IsLicensed :
      (edited : Option Text) (old : Double) (s : Selector Double Text) (freq : Double)
      (changed : Bool) (idx : Option ℕ)
      → s.band_idx ≡ idx
      → IsLicensed old (s, freq, changed)
      → IsLicensed old (edit_field f edited (s, freq, changed))
  unfolding edit_field
  edit-IsLicensed none old s freq changed idx e h = h
  edit-IsLicensed (some text) old s freq changed none e h = rw e h
  edit-IsLicensed (some text) old s freq changed (some zero) e h =
      let entered = f.parse text in
      rw e (elim (Bool-cases (f.less entered (f.hz 144000000) || f.less (f.hz 148000000) entered)) [
        | inl out ↦ rw out h
        | inr good ↦ rw good (inl (refl, entered_first entered good, refl))
      ])
  edit-IsLicensed (some text) old s freq changed (some (suc zero)) e h =
      let entered = f.parse text in
      rw e (elim (Bool-cases (f.less entered (f.hz 420000000) || f.less (f.hz 450000000) entered)) [
        | inl out ↦ rw out h
        | inr good ↦ rw good (inl (refl, entered_second entered good, refl))
      ])
  edit-IsLicensed (some text) old s freq changed (some (suc (suc i))) e h = rw e h

  -- With the laws of the comparisons: whatever the widgets return, a frame that reports a change gives
  -- its caller a frequency of an amateur band, which is the selector's, and another frame leaves the
  -- caller's frequency as it is.
  pub render-IsLicensed :
      (w : Widgets Text) (s : Selector Double Text) (freq : Double)
      → IsLicensed freq (render f w s freq)
  unfolding render
  render-IsLicensed w s freq =
      let chosen = select_bands f w.selected 0 2 (sync_external f s freq, freq, false) in
      let edited = edit_field f w.edited chosen in
      press-IsLicensed w.pressed 0 (presets f edited.0.band_idx) freq edited
        (presets-IsAmateur edited.0.band_idx)
        (edit-IsLicensed w.edited freq chosen.0 chosen.1 chosen.2 chosen.0.band_idx refl (
          select-IsLicensed w.selected freq (sync_external f s freq, freq, false)
            (inr (refl, refl))))
