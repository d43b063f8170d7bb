-- ===== src/Ui/App/Run/Gone.antt =====
-- The log panel of `run` in src/ui/App.cpp, which is gone when `run` returns.
use site_sim.Base.{
  ℕ, ◌≡◌, inl, inr, refl, sym, ap, ◌∙◌, List, [], ◌∷◌, Option, none, some, get_elem?, Bool, true,
  false, Bool-cases, if◌then◌else◌, arith,
}
use site_sim.Tx.Control.{Doubles}
use site_sim.Tx.Device.{Outcome}
use site_sim.Tx.Device.Balance.{Balanced}
use site_sim.Rx.Pipeline.Captured.{Gives, no_pipe}
use site_sim.Rx.Capture.{Table, System, Ending, returns}
use site_sim.Rx.Pipeline.Life.{IsActive}
use site_sim.Ui.Site.{Hex, edit_fields}
use site_sim.Ui.Site.Store.{Json, Disk}
use site_sim.Ui.Console.{Console, Takes, press_apply, render_button}
use site_sim.Ui.Console.Buttons.{IsOnAir}
use site_sim.Ui.Console.Devices.{render_button_unpressed}
use site_sim.Ui.Console.Together.{restart_running, ending-injective}
use site_sim.Ui.App.{Entry, choose_device}
use site_sim.Ui.App.Run.{
  Choice, quits, refreshes, picks, Frame, App, log_panel, gone_panel, and_then, poll, picked,
  choose, choose_all, applied_if, render_site, saved_if, is_pressed, system_of, before_button,
  frame, run, run_app,
}
use site_sim.Ui.App.Run.Steady.{IsLive}
use site_sim.Ui.App.Run.Frames.{any_ends, AllGive}
use site_sim.Ui.App.Run.Loop.{run-IsGood}

-- No frame's button is pressed.
abbrev pub no_button : {Text Double : Type 0} → List (Frame Text Double) → Bool
no_button [] = true
no_button (f ∷ frames) = if is_pressed f.button then false else no_button frames

unpressed-Gives :
    (t : Table) (button : Option System) → is_pressed button ≡ false → Gives t (system_of button)
unpressed-Gives t none h = no_pipe none
unpressed-Gives t (some system) h = cc h

no_button-AllGive :
    {Text Double : Type 0} (t : Table) (frames : List (Frame Text Double))
    → no_button frames ≡ true
    → AllGive t frames
no_button-AllGive t [] h = tt
no_button-AllGive t (f ∷ frames) h = elim (Bool-cases (is_pressed f.button)) [
  | inl pressed ↦ cc (h, ap (λ p. if p then false else no_button frames) pressed)
  | inr unpressed ↦ (
    unpressed-Gives t f.button unpressed,
    no_button-AllGive t frames
        (sym (ap (λ p. if p then false else no_button frames) unpressed) ∙ h),
  )
]

abbrev on : {Text Double : Type 0} → App Text Double → Bool
on a = a.console.channel.running

module _ {Text Double : Type 0} (doubles : Doubles Double) where
  picked_on :
      (outcome : Outcome) (takes : Bool) (entry : Option (Entry Text)) (a : App Text Double)
      → on (picked doubles outcome takes entry a) ≡ on a
  unfolding choose_device
  picked_on outcome takes none a = refl
  picked_on outcome takes (some entry) a = refl

  choose_all_on :
      (choices : List (Choice Text)) (a : App Text Double)
      → on (choose_all doubles choices a) ≡ on a
  unfolding choose
  choose_all_on [] a = refl
  choose_all_on (quits ∷ choices) a = choose_all_on choices (choose doubles quits a)
  choose_all_on (refreshes devices ∷ choices) a =
      choose_all_on choices (choose doubles (refreshes devices) a)
  choose_all_on (picks i outcome takes ∷ choices) a =
      choose_all_on choices (choose doubles (picks i outcome takes) a)
      ∙ picked_on outcome takes (get_elem? a.device_list i) a

module _ {Value Text Double : Type 0} (doubles : Doubles Double) (json : Json Value Text Double)
    (hex : Hex Text) (from_mhz : Double → Double) (limit : ℕ) where
  applied_on :
      (apply : Option Takes) (c : Console Text Double)
      → (applied_if doubles json hex from_mhz limit apply c).channel.running ≡ c.channel.running
  unfolding press_apply
  applied_on none c = refl
  applied_on (some takes) c = restart_running c.channel

  saved_on :
      (save : Option Disk) (a : App Text Double)
      → on (saved_if doubles json hex from_mhz limit save a) ≡ on a
  saved_on none a = refl
  saved_on (some disk) a = refl

  before_button_on :
      (f : Frame Text Double) (a : App Text Double)
      → on (before_button doubles json hex from_mhz limit f a) ≡ on a
  unfolding before_button render_site
  before_button_on f a =
      let polled : App Text Double = record a {
        running = poll f.events a.running;
        dock_layout_done = true;
      } in
      let chosen = choose_all doubles f.choices polled in
      let sited : App Text Double = record chosen {
        console = render_site doubles json hex from_mhz limit f chosen.console;
      } in
      saved_on f.save sited
      ∙ applied_on f.apply (record chosen.console {
        panel = edit_fields f.band_selector from_mhz f.entries chosen.console.panel;
      })
      ∙ choose_all_on doubles f.choices polled

  frame_unpressed :
      (f : Frame Text Double) (a : App Text Double)
      → is_pressed f.button ≡ false
      → frame doubles json hex from_mhz limit f a
        ≡ returns (before_button doubles json hex from_mhz limit f a)
  unfolding frame
  frame_unpressed f a off =
      let b = before_button doubles json hex from_mhz limit f a in
      let unpressed =
        ap (λ p. render_button doubles (system_of f.button) limit p b.console) off
        ∙ render_button_unpressed doubles (system_of f.button) limit b.console in
      ap (λ x. and_then x (λ (c : Console Text Double). returns (record b { console = c })))
        unpressed

  -- Frames without the button leave the producer as it is.
  run_on :
      (frames : List (Frame Text Double)) (a b : App Text Double)
      → no_button frames ≡ true
      → run doubles json hex from_mhz limit frames a ≡ returns b
      → on b ≡ on a
  unfolding run
  run_on [] a b h e = ap on (sym (ending-injective a b e))
  run_on (f ∷ frames) a b h e =
      let c = before_button doubles json hex from_mhz limit f a in
      let step : Bool → Ending (App Text Double) = λ x.
        if x
        then and_then (frame doubles json hex from_mhz limit f a)
            (run doubles json hex from_mhz limit frames)
        else returns a in
      elim (Bool-cases (is_pressed f.button)) [
        | inl pressed ↦ cc (h, ap (λ p. if p then false else no_button frames) pressed)
        | inr unpressed ↦ elim (Bool-cases a.running) [
          | inr off ↦ ap on (sym (ending-injective a b (sym (ap step off) ∙ e)))
          | inl going ↦
              let one = frame_unpressed f a unpressed in
              let rest = sym (ap (λ p. if p then false else no_button frames) unpressed) ∙ h in
              run_on frames c b rest (
                sym (
                  ap step going
                  ∙ ap (λ x. and_then x (run doubles json hex from_mhz limit frames)) one)
                ∙ e)
              ∙ before_button_on f a
        ]
      ]

  -- From a panel on the air with its devices accounted for: over frames in which the button is not pressed,
  -- whatever else they do, and in one of which the user asks for the end, `run` returns with the receiver
  -- still active, and its log callback refers to the panel that is gone.
  pub run_app_dangles :
      (t : Table) (frames : List (Frame Text Double)) (a : App Text Double) (lost : ℕ)
      → IsOnAir doubles t a.console
      → Balanced lost a.console.radio
      → no_button frames ≡ true
      → any_ends frames ≡ true
      → (b : App Text Double) × (run_app doubles json hex from_mhz limit frames a ≡ returns b)
        × (b.running ≡ false)
        × (b.log ≡ gone_panel)
        × IsActive doubles t b.console.rx
  run_app_dangles t frames a lost on_air balanced unpressed asked =
      let begun : App Text Double = record a { log = log_panel } in
      let live : IsLive doubles t a.console = record {
        channel_on = on_air.channel_on;
        rx_active = on_air.rx_active;
      } in
      let (b, finished, good, last) =
        run-IsGood doubles json hex from_mhz t limit frames lost begun
          (no_button-AllGive t frames unpressed)
          (record { steady = inr live; accounted = (lost, omega arith, balanced) }) in
      let still : b.console.channel.running ≡ true =
        run_on frames begun b unpressed finished ∙ on_air.channel_on in
      (
        record b { log = gone_panel },
        ap (λ x. and_then x (λ (b : App Text Double). returns (record b { log = gone_panel })))
            finished,
        elim last [ inl h ↦ h | inr h ↦ cc (asked, h) ],
        refl,
        elim good.steady [
          | inl stopped ↦ cc (still, stopped.channel_off)
          | inr live ↦ live.rx_active
        ],
      )
