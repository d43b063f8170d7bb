-- ===== src/Ui/Console/Devices.antt =====
-- The button of src/ui/CCPanel.cpp leaves the devices alone.
use site_sim.Base.{
  ℕ, ◌≡◌, inl, inr, refl, sym, ap, ◌∙◌, subst, Bool, true, false, Bool-cases, if◌then◌else◌,
}
use site_sim.Tx.Control.{Doubles, start, stop}
use site_sim.Tx.Device.{start_tx, stop_tx}
use site_sim.Tx.Device.Balance.{Balanced}
use site_sim.Rx.Capture.{System, Ending, returns, waits, terminates}
use site_sim.Rx.Pipeline.{Pipeline, configure_rx, start_rx, stop_rx}
use site_sim.Ui.Console.{
  Console, press_start, press_stop, with_started, with_stopped, render_button,
}
use site_sim.Ui.Console.Together.{ending-injective}

module _ {Text Double : Type 0} (doubles : Doubles Double) where
  with_started-radio :
      (c d : Console Text Double) (x : Ending (Bool × Pipeline Double))
      → with_started doubles c x ≡ returns d
      → d.radio ≡ c.radio
  with_started-radio c d waits h = cc h
  with_started-radio c d terminates h = cc h
  with_started-radio c d (returns (started, rx)) h =
      ap (λ (x : Console Text Double). x.radio) (sym (ending-injective (record c { rx = rx }) d h))

  with_stopped-radio :
      (c d : Console Text Double) (x : Ending (Pipeline Double))
      → with_stopped doubles c x ≡ returns d
      → d.radio ≡ stop_tx c.radio
  with_stopped-radio c d waits h = cc h
  with_stopped-radio c d terminates h = cc h
  with_stopped-radio c d (returns rx) h =
      ap (λ (x : Console Text Double). x.radio)
        (sym (ending-injective (record c { rx = rx; radio = stop_tx c.radio }) d h))

  pub render_button_unpressed :
      (system : System) (limit : ℕ) (c : Console Text Double)
      → render_button doubles system limit false c ≡ returns c
  unfolding render_button
  render_button_unpressed system limit c = refl

  -- The button makes and releases no device.
  pub render_button-Balanced :
      (system : System) (limit lost : ℕ) (pressed : Bool) (c d : Console Text Double)
      → render_button doubles system limit pressed c ≡ returns d
      → Balanced lost c.radio
      → Balanced lost d.radio
  unfolding render_button press_start press_stop start_tx stop_tx
  render_button-Balanced system limit lost false c d h balanced =
      subst (λ (x : Console Text Double). Balanced lost x.radio) (ending-injective c d h) balanced
  render_button-Balanced system limit lost true c d h balanced =
      elim (Bool-cases c.channel.running) [
        | inl e ↦
            let same =
              with_stopped-radio (record c { channel = stop c.channel }) d (stop_rx limit c.rx)
                (ap (λ b. if b then press_stop doubles limit c else press_start doubles system c)
                    (sym e)
                  ∙ h) in
            subst (Balanced lost) (sym same) balanced
        | inr e ↦
            let same =
              with_started-radio (record c { radio = start_tx c.radio; channel = start c.channel })
                d (start_rx doubles system (configure_rx c.panel.cfg c.rx))
                (ap (λ b. if b then press_stop doubles limit c else press_start doubles system c)
                    (sym e)
                  ∙ h) in
            subst (Balanced lost) (sym same) balanced
      ]
