-- ===== src/Ui/App/Run/Ended.antt =====
-- The end of `App` of src/ui/App.cpp.
use site_sim.Base.{ℕ, ◌≡◌, inl, inr, refl, ap, ◌∙◌, false, if◌then◌else◌}
use site_sim.Tx.Control.{Doubles, stop}
use site_sim.Tx.Device.{close, stop_tx}
use site_sim.Tx.Device.Balance.{Balanced, close_lem}
use site_sim.Rx.Capture.{Table, returns}
use site_sim.Rx.Pipeline.{Pipeline, stop_rx}
use site_sim.Rx.Pipeline.Life.{IsIdle, stop-IsIdle, destroy-IsIdle}
use site_sim.Ui.Console.{Console}
use site_sim.Ui.Console.Buttons.{IsStopped}
use site_sim.Ui.App.{with_quiet, shutdown}
use site_sim.Ui.App.Devices.{close_running, quiet_channel}
use site_sim.Ui.App.Run.{App, and_then, destroy_members, destroy}
use site_sim.Ui.App.Run.Steady.{IsAccounted, IsSteady}
use site_sim.Ui.App.Run.Frames.{IsGood}

module _ {Text Double : Type 0} (doubles : Doubles Double) (t : Table) (limit : ℕ) where
  -- Nothing runs, and no device is held.
  pub record IsEnded (n : ℕ) (c : Console Text Double) : Type 0 where
    pub all_stopped : IsStopped doubles t c
    pub no_device : c.radio.device ≡ false
    pub accounted_for : IsAccounted n c.radio

  steady_rx :
      (c : Console Text Double)
      → IsSteady doubles t c
      → (rx : Pipeline Double) × ((if c.rx.running then stop_rx limit c.rx else returns c.rx)
          ≡ returns rx)
        × IsIdle doubles t rx
  steady_rx c (inl stopped) = (
    c.rx,
    ap (λ b. if b then stop_rx limit c.rx else returns c.rx) stopped.rx_idle.not_running,
    stopped.rx_idle,
  )
  steady_rx c (inr live) =
      let (rx, ended, idle) = stop-IsIdle doubles t c.rx limit live.rx_active in
      (
        rx,
        ap (λ b. if b then stop_rx limit c.rx else returns c.rx) live.rx_active.is_running ∙ ended,
        idle,
      )

  -- `shutdown` of a panel that is stopped or live, with the radio's devices accounted for, returns: nothing
  -- runs, no device is held, and the devices that were made are unmade but for those lost.
  pub shutdown_lem :
      (lost : ℕ) (c : Console Text Double)
      → IsSteady doubles t c
      → Balanced lost c.radio
      → (e : Console Text Double) × (shutdown limit c ≡ returns e)
        × IsStopped doubles t e
        × Balanced lost e.radio
        × (e.radio.device ≡ false)
  unfolding shutdown stop_tx
  shutdown_lem lost c steady balanced =
      let (rx, quiet, idle) = steady_rx c steady in
      let radio = close_lem lost (stop_tx c.radio) balanced in
      (
        record c {
          rx = rx;
          channel = if c.channel.running then stop c.channel else c.channel;
          radio = close (stop_tx c.radio);
        },
        ap (with_quiet c) quiet,
        record {
          channel_off = quiet_channel c.channel;
          radio_off = close_running (stop_tx c.radio);
          rx_idle = idle;
        },
        radio.0,
        radio.1,
      )

  shutdown-IsEnded :
      (n : ℕ) (c : Console Text Double)
      → IsGood doubles t n c
      → (e : Console Text Double) × (shutdown limit c ≡ returns e) × IsEnded n e
  shutdown-IsEnded n c good =
      let (lost, few, balanced) = good.accounted in
      let (e, shut, stopped, rest, free) = shutdown_lem lost c good.steady balanced in
      (
        e,
        shut,
        record { all_stopped = stopped; no_device = free; accounted_for = (lost, few, rest) },
      )

  -- The destructor returns, with the window and its context gone.
  pub destroy-IsEnded :
      (n : ℕ) (a : App Text Double)
      → IsGood doubles t n a.console
      → (e : App Text Double) × (destroy limit a ≡ returns e)
        × IsEnded n e.console
        × (e.window ≡ false)
        × (e.gl_ctx ≡ false)
        × (e.running ≡ a.running)
  unfolding destroy stop stop_tx
  destroy-IsEnded n a good =
      let (c, shut, ended) = shutdown-IsEnded n a.console good in
      let b : App Text Double = record a { console = c; window = false; gl_ctx = false } in
      let (lost, few, balanced) = ended.accounted_for in
      let radio = close_lem lost (stop_tx c.radio) balanced in
      let e : App Text Double = record b {
        console = record c { channel = stop c.channel; radio = close (stop_tx c.radio) };
      } in
      (
        e,
        ap
              (λ x. and_then x (λ (c : Console Text Double).
                destroy_members limit (record a { console = c; window = false; gl_ctx = false })))
              shut
            ∙ ap (λ x. and_then x (λ (done : Unit {0}). returns e))
                (destroy-IsIdle doubles t c.rx limit ended.all_stopped.rx_idle),
        record {
          all_stopped = record {
            channel_off = refl;
            radio_off = close_running (stop_tx c.radio);
            rx_idle = ended.all_stopped.rx_idle;
          };
          no_device = radio.1;
          accounted_for = (lost, few, radio.0);
        },
        refl,
        refl,
        refl,
      )
