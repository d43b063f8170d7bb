-- ===== src/Ui/App/Run/Steady.antt =====
-- What the frames of src/ui/App.cpp keep of the components and of the devices.
use site_sim.Base.{
  ℕ, ◌+◌, ◌≤◌, ◌≡◌, ◌⊎◌, inl, inr, refl, sym, ◌∙◌, subst, [], ◌∷◌, Bool, true, false, arith,
}
use site_sim.Tx.Control.{Doubles}
use site_sim.Tx.Device.{Radio, Outcome, close, open_device}
use site_sim.Tx.Device.Balance.{Balanced, calls_open, thrown, close_lem, open-Balanced}
use site_sim.Rx.Capture.{Table, System, returns}
use site_sim.Rx.Pipeline.Captured.{Gives}
use site_sim.Rx.Pipeline.Life.{IsIdle, IsActive}
use site_sim.Ui.Site.{Hex}
use site_sim.Ui.Console.{Console, Takes, press_apply, render_button}
use site_sim.Ui.Console.Devices.{render_button_unpressed}
use site_sim.Ui.Console.Buttons.{IsStopped, press_stopped, press_running}
use site_sim.Ui.Console.Together.{restart_running}
use site_sim.Ui.App.{Entry, select_device, choose_device}
use site_sim.Ui.App.Devices.{select_device_running, chosen_radio}

-- So many devices are lost at most.
abbrev pub IsAccounted : ℕ → Radio → Type 0
IsAccounted n r = (lost : ℕ) × (lost ≤ n) × Balanced lost r

module _ {Text Double : Type 0} (doubles : Doubles Double) (t : Table) where
  -- The producer and the receiver run, with the transmitter or without.
  pub record IsLive (c : Console Text Double) : Type 0 where
    pub channel_on : c.channel.running ≡ true
    pub rx_active : IsActive doubles t c.rx

  abbrev pub IsSteady : Console Text Double → Type 0
  IsSteady c = IsStopped doubles t c ⊎ IsLive c

  -- A change that keeps the producer's flag and the receiver, and does not start the transmitter.
  pub kept :
      (c d : Console Text Double)
      → d.channel.running ≡ c.channel.running
      → (c.radio.running ≡ false → d.radio.running ≡ false)
      → d.rx ≡ c.rx
      → IsSteady c
      → IsSteady d
  kept c d channel radio rx (inl stopped) = inl (record {
    channel_off = channel ∙ stopped.channel_off;
    radio_off = radio stopped.radio_off;
    rx_idle = subst (IsIdle doubles t) (sym rx) stopped.rx_idle;
  })
  kept c d channel radio rx (inr live) = inr (record {
    channel_on = channel ∙ live.channel_on;
    rx_active = subst (IsActive doubles t) (sym rx) live.rx_active;
  })

  pub choose_device-IsSteady :
      (outcome : Outcome) (takes : Bool) (entry : Entry Text) (c : Console Text Double)
      → IsSteady c
      → IsSteady (choose_device doubles outcome takes entry c)
  unfolding choose_device
  choose_device-IsSteady outcome takes entry c steady =
      kept c (choose_device doubles outcome takes entry c) refl
        (λ off. select_device_running outcome entry c.radio) refl steady

  pub press_apply-IsSteady :
      (hex : Hex Text) (takes : Takes) (c : Console Text Double)
      → IsSteady c
      → IsSteady (press_apply doubles hex takes c)
  unfolding press_apply
  press_apply-IsSteady hex takes c steady =
      kept c (press_apply doubles hex takes c) (restart_running c.channel) (λ off. off) refl steady

  -- The button, pressed or not, returns.
  pub render_button-IsSteady :
      (system : System) (limit : ℕ) (pressed : Bool) (c : Console Text Double)
      → Gives t system
      → IsSteady c
      → (d : Console Text Double) × (render_button doubles system limit pressed c ≡ returns d)
        × IsSteady d
  render_button-IsSteady system limit false c gives steady =
      (c, render_button_unpressed doubles system limit c, steady)
  render_button-IsSteady system limit true c gives (inl stopped) =
      let (d, begun, on_air) = press_stopped doubles t system limit c stopped gives in
      (d, begun, inr (record { channel_on = on_air.channel_on; rx_active = on_air.rx_active }))
  render_button-IsSteady system limit true c gives (inr live) =
      let (d, ended, stopped) =
        press_running doubles t system limit c live.channel_on live.rx_active in
      (d, ended, inl stopped)

module _ {Text Double : Type 0} (doubles : Doubles Double) where
  pub choose_device-IsAccounted :
      (outcome : Outcome) (takes : Bool) (entry : Entry Text) (n : ℕ) (c : Console Text Double)
      → IsAccounted n c.radio
      → IsAccounted
          (n + thrown (calls_open outcome ∷ []))
          (choose_device doubles outcome takes entry c).radio
  unfolding choose_device select_device
  choose_device-IsAccounted outcome takes entry n c (lost, few, balanced) =
      let (closed, free) = close_lem lost c.radio balanced in
      (
        lost + thrown (calls_open outcome ∷ []),
        omega (arith, few),
        subst (Balanced (lost + thrown (calls_open outcome ∷ [])))
            (sym (chosen_radio entry (open_device outcome (close c.radio))))
            (open-Balanced outcome lost (close c.radio) closed),
      )
