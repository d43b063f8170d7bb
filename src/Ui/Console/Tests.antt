-- ===== src/Ui/Console/Tests.antt =====
-- Instances for the buttons of src/ui.
use site_sim.Base.{ℕ, ◌≡◌}
use site_sim.Tx.Control.{configure}
use site_sim.Tx.Control.Samples.{whole}
use site_sim.Rx.Capture.{returns}
use site_sim.Rx.Capture.Samples.{standard-IsFresh, piped}
use site_sim.Rx.Pipeline.Captured.{all_three}
use site_sim.Ui.Site.{apply_identity}
use site_sim.Ui.Site.Samples.{hex}
use site_sim.Ui.Console.{Console, press_apply, press_start}
use site_sim.Ui.Console.Buttons.{IsOnAir, press_start_lem}
use site_sim.Ui.Console.Samples.{table, all_taken, stopped, stopped-IsStopped}

press_start_example :
    ((c' : Console ℕ ℕ) × (press_start whole piped (press_apply whole hex all_taken stopped)
        ≡ returns c')
      × IsOnAir whole table c'
      × (c'.rx.cfg ≡ apply_identity hex stopped.panel)
      × (c'.channel_cfg ≡ configure whole c'.rx.cfg)
      × (c'.tuner.settings.frequency ≡ c'.rx.cfg.cc_freq_hz))
    × ((c' : Console ℕ ℕ) × (press_start whole piped stopped ≡ returns c')
        × IsOnAir whole table c'
        × (c'.rx.cfg ≡ stopped.panel.cfg)
        × (c'.channel_cfg ≡ stopped.channel_cfg)
        × (c'.tuner ≡ stopped.tuner))
press_start_example =
    press_start_lem whole table hex all_taken piped stopped stopped-IsStopped
      (all_three 3 4 5 standard-IsFresh)
