-- ===== src/Ui/Console/Buttons.antt =====
-- What START TX, STOP TX and `Apply` of src/ui do to the components together.
use site_sim.Base.{ℕ, ◌≡◌, refl, sym, ap, ◌∙◌, true, false, if◌then◌else◌, arith}
use site_sim.Tx.Control.{Doubles, Channel, start, stop, configure}
use site_sim.Tx.Device.{start_tx, stop_tx}
use site_sim.Tx.Device.Tuning.{call}
use site_sim.Rx.Capture.{Table, System, returns}
use site_sim.Rx.Pipeline.{Pipeline, configure_rx}
use site_sim.Rx.Pipeline.Life.{
  IsIdle, IsActive, start-IsActive, stop-IsIdle, start_cfg, configure-IsIdle,
}
use site_sim.Rx.Pipeline.Captured.{Gives}
use site_sim.Ui.Site.{Hex, apply_identity}
use site_sim.Ui.Console.{
  Console, Takes, press_apply, press_start, press_stop, with_started, with_stopped, render_button,
}

start_running_channel : (c : Channel) → (start c).running ≡ true
unfolding start
start_running_channel c = ground arith

module _ {Text Double : Type 0} (doubles : Doubles Double) (t : Table) where
  -- Nothing runs.
  pub record IsStopped (c : Console Text Double) : Type 0 where
    pub channel_off : c.channel.running ≡ false
    pub radio_off : c.radio.running ≡ false
    pub rx_idle : IsIdle doubles t c.rx

  -- The producer, the transmitter and the receiver run.
  pub record IsOnAir (c : Console Text Double) : Type 0 where
    pub channel_on : c.channel.running ≡ true
    pub radio_on : c.radio.running ≡ true
    pub rx_active : IsActive doubles t c.rx

  -- START TX with the receiver idle.
  pub press_start_idle :
      (system : System) (c : Console Text Double)
      → IsIdle doubles t c.rx
      → Gives t system
      → (rx : Pipeline Double) × (press_start doubles system c
          ≡ returns (record c { radio = start_tx c.radio; channel = start c.channel; rx = rx }))
        × IsActive doubles t rx
        × (rx.cfg ≡ c.panel.cfg)
  unfolding press_start configure_rx
  press_start_idle system c idle gives =
      let p = configure_rx c.panel.cfg c.rx in
      let (rx, begun, active) =
        start-IsActive doubles t p system (configure-IsIdle doubles t c.panel.cfg c.rx idle)
          gives in
      (
        rx,
        ap (with_started doubles (record c { radio = start_tx c.radio; channel = start c.channel }))
            begun,
        active,
        start_cfg doubles t p rx system true begun,
      )

  pub press_start-press_apply :
      (hex : Hex Text) (takes : Takes) (system : System) (c : Console Text Double)
      → IsStopped c
      → Gives t system
      → (c' : Console Text Double) × (press_start doubles system (press_apply doubles hex takes c)
          ≡ returns c')
        × IsOnAir c'
        × (c'.rx.cfg ≡ apply_identity hex c.panel)
        × (c'.channel_cfg ≡ configure doubles c'.rx.cfg)
        × (c'.tuner.settings.frequency ≡ c'.rx.cfg.cc_freq_hz)
  unfolding press_apply start_tx call
  press_start-press_apply hex takes system c stopped gives =
      let d = press_apply doubles hex takes c in
      let (rx, started, active, same) = press_start_idle system d stopped.rx_idle gives in
      (
        record d { radio = start_tx d.radio; channel = start d.channel; rx = rx },
        started,
        record {
          channel_on = start_running_channel d.channel;
          radio_on = refl;
          rx_active = active;
        },
        same,
        ap (configure doubles) (sym same),
        ap (λ x. x.cc_freq_hz) (sym same),
      )

  pub press_start_unapplied :
      (system : System) (c : Console Text Double)
      → IsStopped c
      → Gives t system
      → (c' : Console Text Double) × (press_start doubles system c ≡ returns c')
        × IsOnAir c'
        × (c'.rx.cfg ≡ c.panel.cfg)
        × (c'.channel_cfg ≡ c.channel_cfg)
        × (c'.tuner ≡ c.tuner)
  unfolding start_tx
  press_start_unapplied system c stopped gives =
      let (rx, started, active, same) = press_start_idle system c stopped.rx_idle gives in
      (
        record c { radio = start_tx c.radio; channel = start c.channel; rx = rx },
        started,
        record {
          channel_on = start_running_channel c.channel;
          radio_on = refl;
          rx_active = active;
        },
        same,
        refl,
        refl,
      )

  -- START TX with the panel stopped puts all three on the air. After `Apply` the control channel and the
  -- receiver have the same configuration, that of the panel with its identifiers applied and with the
  -- offset in units computed for the control channel, and the radio is set to its frequency. Without
  -- `Apply` the receiver alone has the panel's configuration: the control channel and the radio keep theirs.
  pub press_start_lem :
      (hex : Hex Text) (takes : Takes) (system : System) (c : Console Text Double)
      → IsStopped c
      → Gives t system
      → ((c' : Console Text Double) × (press_start doubles system (press_apply doubles hex takes c)
            ≡ returns c')
          × IsOnAir c'
          × (c'.rx.cfg ≡ apply_identity hex c.panel)
          × (c'.channel_cfg ≡ configure doubles c'.rx.cfg)
          × (c'.tuner.settings.frequency ≡ c'.rx.cfg.cc_freq_hz))
        × ((c' : Console Text Double) × (press_start doubles system c ≡ returns c')
            × IsOnAir c'
            × (c'.rx.cfg ≡ c.panel.cfg)
            × (c'.channel_cfg ≡ c.channel_cfg)
            × (c'.tuner ≡ c.tuner))
  press_start_lem hex takes system c stopped gives = (
    press_start-press_apply hex takes system c stopped gives,
    press_start_unapplied system c stopped gives,
  )

  -- The button of a stopped panel puts all three on the air.
  pub press_stopped :
      (system : System) (limit : ℕ) (c : Console Text Double)
      → IsStopped c
      → Gives t system
      → (c' : Console Text Double) × (render_button doubles system limit true c ≡ returns c')
        × IsOnAir c'
  unfolding render_button
  press_stopped system limit c stopped gives =
      let (c', started, on_air, a, b, d) = press_start_unapplied system c stopped gives in
      (
        c',
        ap (λ b. if b then press_stop doubles limit c else press_start doubles system c)
              stopped.channel_off
            ∙ started,
        on_air,
      )

  -- The button stops all three, also where the transmitter is off already.
  pub press_running :
      (system : System) (limit : ℕ) (c : Console Text Double)
      → c.channel.running ≡ true
      → IsActive doubles t c.rx
      → (c' : Console Text Double) × (render_button doubles system limit true c ≡ returns c')
        × IsStopped c'
  unfolding render_button press_stop stop stop_tx
  press_running system limit c channel_on active =
      let (rx, ended, idle) = stop-IsIdle doubles t c.rx limit active in
      (
        record c { channel = stop c.channel; rx = rx; radio = stop_tx c.radio },
        ap (λ b. if b then press_stop doubles limit c else press_start doubles system c) channel_on
            ∙ ap (with_stopped doubles (record c { channel = stop c.channel })) ended,
        record { channel_off = refl; radio_off = refl; rx_idle = idle },
      )

  pub press_on_air :
      (system : System) (limit : ℕ) (c : Console Text Double)
      → IsOnAir c
      → (c' : Console Text Double) × (render_button doubles system limit true c ≡ returns c')
        × IsStopped c'
  press_on_air system limit c on_air =
      press_running system limit c on_air.channel_on on_air.rx_active
