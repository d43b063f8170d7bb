-- ===== src/Ui/App/Run/Loop.antt =====
-- The loop of `run` in src/ui/App.cpp.
use site_sim.Base.{
  ℕ, ◌+◌, ◌≡◌, ◌⊎◌, inl, inr, refl, sym, ap, ◌∙◌, subst, List, [], ◌∷◌, Option, none, some, Bool,
  true, false, ◌||◌, Bool-cases, if◌then◌else◌, arith,
}
use site_sim.Tx.Control.{Doubles}
use site_sim.Rx.Capture.{Table, returns}
use site_sim.Rx.Pipeline.Captured.{Gives}
use site_sim.Ui.Site.{Hex, edit_fields}
use site_sim.Ui.Site.Store.{Json, Disk}
use site_sim.Ui.Console.{Console, Takes, press_apply}
use site_sim.Ui.Console.Devices.{render_button-Balanced}
use site_sim.Ui.Console.Together.{ending-injective}
use site_sim.Ui.App.Run.{
  Frame, App, and_then, poll, choose_all, applied_if, render_site, saved_if, is_pressed, system_of,
  before_button, frame, run,
}
use site_sim.Ui.App.Run.Steady.{kept, press_apply-IsSteady, render_button-IsSteady}
use site_sim.Ui.App.Run.Frames.{
  more, throws, all_throws, asks, chooses_quit, any_ends, AllGive, IsGood, choose_all-IsGood,
  poll-asks, choose_all_stopped, choose_all_quits,
}

none_ends : (a b c : Bool) → (a || b) ≡ false → c ≡ false → (a || b || c) ≡ false
none_ends a b c h k = ground arith

module _ {Value Text Double : Type 0} (doubles : Doubles Double) (json : Json Value Text Double)
    (hex : Hex Text) (from_mhz : Double → Double) (t : Table) (limit : ℕ) where
  applied-IsGood :
      (apply : Option Takes) (n : ℕ) (c : Console Text Double)
      → IsGood doubles t n c
      → IsGood doubles t n (applied_if doubles json hex from_mhz limit apply c)
  unfolding press_apply
  applied-IsGood none n c good = good
  applied-IsGood (some takes) n c good = record {
    steady = press_apply-IsSteady doubles t hex takes c good.steady;
    accounted = good.accounted;
  }

  render_site-IsGood :
      (f : Frame Text Double) (n : ℕ) (c : Console Text Double)
      → IsGood doubles t n c
      → IsGood doubles t n (render_site doubles json hex from_mhz limit f c)
  unfolding render_site
  render_site-IsGood f n c good =
      let d : Console Text Double = record c {
        panel = edit_fields f.band_selector from_mhz f.entries c.panel;
      } in
      applied-IsGood f.apply n d (record {
        steady = kept doubles t c d refl (λ off. off) refl good.steady;
        accounted = good.accounted;
      })

  saved-IsGood :
      (save : Option Disk) (n : ℕ) (a : App Text Double)
      → IsGood doubles t n a.console
      → IsGood doubles t n (saved_if doubles json hex from_mhz limit save a).console
        × ((saved_if doubles json hex from_mhz limit save a).running ≡ a.running)
  saved-IsGood none n a good = (good, refl)
  saved-IsGood (some disk) n a good =
      let b = saved_if doubles json hex from_mhz limit (some disk) a in
      (
        record {
          steady = kept doubles t a.console b.console refl (λ off. off) refl good.steady;
          accounted = good.accounted;
        },
        refl,
      )

  -- A frame up to the control panel: the application with the menus' choices made.
  abbrev chosen : Frame Text Double → App Text Double → App Text Double
  chosen f a =
      choose_all doubles f.choices
        (record a { running = poll f.events a.running; dock_layout_done = true })

  abbrev sited : Frame Text Double → App Text Double → App Text Double
  sited f a = record (chosen f a) {
    console = render_site doubles json hex from_mhz limit f (chosen f a).console;
  }

  before_button-IsGood :
      (f : Frame Text Double) (n : ℕ) (a : App Text Double)
      → IsGood doubles t n a.console
      → IsGood doubles t
          (n + throws f.choices)
          (before_button doubles json hex from_mhz limit f a).console
        × ((before_button doubles json hex from_mhz limit f a).running ≡ (chosen f a).running)
  unfolding before_button
  before_button-IsGood f n a good =
      let polled : App Text Double = record a {
        running = poll f.events a.running;
        dock_layout_done = true;
      } in
      let m = n + throws f.choices in
      saved-IsGood f.save m (sited f a) (
        render_site-IsGood f m (chosen f a).console
          (choose_all-IsGood doubles t f.choices n polled good))

  chosen_ends :
      (f : Frame Text Double) (a : App Text Double)
      → (asks f.events || chooses_quit f.choices) ≡ true
      → (chosen f a).running ≡ false
  chosen_ends f a h = elim (Bool-cases (asks f.events)) [
    | inl e ↦
        choose_all_stopped doubles f.choices
          (record a { running = poll f.events a.running; dock_layout_done = true })
          (poll-asks f.events a.running e)
    | inr e ↦
        choose_all_quits doubles f.choices
          (record a { running = poll f.events a.running; dock_layout_done = true })
          (ap (λ b. b || chooses_quit f.choices) (sym e) ∙ h)
  ]

  -- A frame returns.
  frame-IsGood :
      (f : Frame Text Double) (n : ℕ) (a : App Text Double)
      → Gives t (system_of f.button)
      → IsGood doubles t n a.console
      → (b : App Text Double) × (frame doubles json hex from_mhz limit f a ≡ returns b)
        × IsGood doubles t (n + throws f.choices) b.console
        × (b.running ≡ (chosen f a).running)
  unfolding frame
  frame-IsGood f n a gives good =
      let b = before_button doubles json hex from_mhz limit f a in
      let (before, running) = before_button-IsGood f n a good in
      let (d, pressed, steady) =
        render_button-IsSteady doubles t (system_of f.button) limit (is_pressed f.button) b.console
          gives before.steady in
      let (lost, few, balanced) = before.accounted in
      (
        record b { console = d },
        ap (λ x. and_then x (λ (c : Console Text Double). returns (record b { console = c })))
            pressed,
        record {
          steady = steady;
          accounted = (
            lost,
            few,
            render_button-Balanced doubles (system_of f.button) limit lost (is_pressed f.button)
                b.console d pressed balanced,
          );
        },
        running,
      )

  run_stopped :
      (frames : List (Frame Text Double)) (a : App Text Double)
      → a.running ≡ false
      → run doubles json hex from_mhz limit frames a ≡ returns a
  unfolding run
  run_stopped [] a off = refl
  run_stopped (f ∷ frames) a off =
      ap
        (λ b.
          if b
          then and_then (frame doubles json hex from_mhz limit f a)
              (run doubles json hex from_mhz limit frames)
          else returns a)
        off

  run_ends :
      (f : Frame Text Double) (frames : List (Frame Text Double)) (a b c : App Text Double)
      → b.running ≡ (chosen f a).running
      → run doubles json hex from_mhz limit frames b ≡ returns c
      → (c.running ≡ false) ⊎ (any_ends frames ≡ false)
      → (c.running ≡ false) ⊎ (any_ends (f ∷ frames) ≡ false)
  run_ends f frames a b c running finished (inl off) = inl off
  run_ends f frames a b c running finished (inr quiet) =
      elim (Bool-cases (asks f.events || chooses_quit f.choices)) [
        | inl e ↦
            let off = running ∙ chosen_ends f a e in
            inl (
              ap (λ (x : App Text Double). x.running)
                (sym (ending-injective b c (sym (run_stopped frames b off) ∙ finished)))
              ∙ off)
        | inr e ↦ inr (none_ends (asks f.events) (chooses_quit f.choices) (any_ends frames) e quiet)
      ]

  -- The loop over any frames returns, and stops when the user asks for it.
  pub run-IsGood :
      (frames : List (Frame Text Double)) (n : ℕ) (a : App Text Double)
      → AllGive t frames
      → IsGood doubles t n a.console
      → (b : App Text Double) × (run doubles json hex from_mhz limit frames a ≡ returns b)
        × IsGood doubles t (n + all_throws frames) b.console
        × ((b.running ≡ false) ⊎ (any_ends frames ≡ false))
  unfolding run
  run-IsGood [] n a gives good = (
    a,
    refl,
    record { steady = good.steady; accounted = more n 0 a.console.radio good.accounted },
    inr refl,
  )
  run-IsGood (f ∷ frames) n a (one, gives) good = elim (Bool-cases a.running) [
    | inr off ↦ (
      a,
      ap
          (λ b.
            if b
            then and_then (frame doubles json hex from_mhz limit f a)
                (run doubles json hex from_mhz limit frames)
            else returns a)
          off,
      record {
        steady = good.steady;
        accounted = more n (all_throws (f ∷ frames)) a.console.radio good.accounted;
      },
      inl off,
    )
    | inl on ↦
        let (b, ended, good', running) = frame-IsGood f n a one good in
        let (c, finished, good'', last) = run-IsGood frames (n + throws f.choices) b gives good' in
        let sum : n + throws f.choices + all_throws frames
            ≡ n + (throws f.choices + all_throws frames) =
          omega arith in
        (
          c,
          ap
                (λ b.
                  if b
                  then and_then (frame doubles json hex from_mhz limit f a)
                      (run doubles json hex from_mhz limit frames)
                  else returns a)
                on
              ∙ ap (λ x. and_then x (run doubles json hex from_mhz limit frames)) ended
              ∙ finished,
          subst (λ k. IsGood doubles t k c.console) sum good'',
          run_ends f frames a b c running finished last,
        )
  ]
