-- ===== src/Ui/Console.antt =====
-- What the buttons of src/ui/CCPanel.cpp and `Apply` of src/ui/SitePanel.cpp do to the components: the
-- panel, the control channel, the radio and the receiver, which `App` of src/ui/App.cpp holds.
pub mod Buttons
pub mod Together
pub mod Devices
pub mod Samples
mod Tests
use site_sim.Base.{ℕ, Option, Bool, true, false, if◌then◌else◌}
use site_sim.Tx.Control.{Doubles, SiteConfig, Channel, rx_freq_hz, start, stop, configure}
use site_sim.Tx.Device.{Radio, Error, start_tx, stop_tx}
use site_sim.Tx.Device.Tuning.{Tuner, call, set_frequency, set_gain, set_amp_enabled}
use site_sim.Rx.Capture.{System, Ending, returns, waits, terminates}
use site_sim.Rx.Pipeline.{Pipeline, configure_rx, start_rx, stop_rx}
use site_sim.Ui.Site.{Panel, Hex, apply_identity}
use site_sim.Ui.Site.Store.{Status, applied}

-- The panel, `m_cfg` of the control channel and what its threads share, the radio's settings and the
-- rest of it, and the receiver.
pub record Console (Text Double : Type 0) : Type 0 where
  pub panel : Panel Text Double
  pub channel_cfg : SiteConfig Double
  pub channel : Channel
  pub tuner : Tuner Double
  pub radio : Radio
  pub rx : Pipeline Double

-- Whether the device takes its frequency, its gain and the gain of its amplifier.
pub record Takes : Type 0 where
  pub frequency : Bool
  pub gain : Bool
  pub amp : Bool

-- The texts of `CCPanel`: the state of the transmitter, the frequencies, the number of frames, whether a
-- device is connected, and its error.
pub record Indicators (Double : Type 0) : Type 0 where
  pub tx_active : Bool
  pub tx_hz : Double
  pub rx_hz : Double
  pub frames_tx : ℕ
  pub connected : Bool
  pub error : Option Error

module _ {Text Double : Type 0} (doubles : Doubles Double) where
  -- The button `Apply`. The producer's thread is stopped and started again if it runs.
  unfoldable pub press_apply : Hex Text → Takes → Console Text Double → Console Text Double
  press_apply hex takes c =
      let cfg = apply_identity hex c.panel in
      let set = call (doubles.literal 14) (doubles.literal 0) in
      record c {
        panel = record c.panel { cfg = cfg; status = applied };
        channel_cfg = configure doubles cfg;
        channel = if c.channel.running then start (stop c.channel) else c.channel;
        tuner = set (set_amp_enabled takes.amp cfg.amp_enabled) (
            set (set_gain takes.gain cfg.gain_db)
              (set (set_frequency takes.frequency cfg.cc_freq_hz) c.tuner));
      }

  -- The end of `START TX`, when `start` of the receiver has returned.
  abbrev pub with_started :
      Console Text Double → Ending (Bool × Pipeline Double) → Ending (Console Text Double)
  with_started c waits = waits
  with_started c terminates = terminates
  with_started c (returns (started, rx)) = returns (record c { rx = rx })

  -- The button `START TX`. What `start` of the receiver returns is not looked at.
  pub press_start : System → Console Text Double → Ending (Console Text Double)
  press_start system c =
      with_started (record c { radio = start_tx c.radio; channel = start c.channel })
        (start_rx doubles system (configure_rx c.panel.cfg c.rx))

  -- The end of `STOP TX`, when `stop` of the receiver has returned.
  abbrev pub with_stopped :
      Console Text Double → Ending (Pipeline Double) → Ending (Console Text Double)
  with_stopped c waits = waits
  with_stopped c terminates = terminates
  with_stopped c (returns rx) = returns (record c { rx = rx; radio = stop_tx c.radio })

  -- The button `STOP TX`, with so many descriptors at most.
  pub press_stop : ℕ → Console Text Double → Ending (Console Text Double)
  press_stop limit c = with_stopped (record c { channel = stop c.channel }) (stop_rx limit c.rx)

  -- A frame of `CCPanel`, with whether its button is pressed.
  pub render_button : System → ℕ → Bool → Console Text Double → Ending (Console Text Double)
  render_button system limit false c = returns c
  render_button system limit true c =
      if c.channel.running then press_stop limit c else press_start system c

  -- What a frame of `CCPanel` shows, in its order, before the button and behind it. The two frequencies are
  -- those of the panel.
  abbrev pub indicators : Console Text Double → Indicators Double
  indicators c = record {
    tx_active = c.channel.running;
    tx_hz = c.panel.cfg.cc_freq_hz;
    rx_hz = rx_freq_hz doubles c.panel.cfg;
    frames_tx = c.channel.frame_count;
    connected = c.radio.device;
    error = c.radio.last_error;
  }
