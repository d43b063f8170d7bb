-- ===== src/Ui/App/Run/Tests.antt =====
-- Instances for src/main.cpp.
use site_sim.Rx.Capture.Samples.{piped}
use site_sim.Base.{ℕ, ◌≡◌, refl, List, [], ◌∷◌, none, some, true, false}
use site_sim.Tx.Control.Samples.{whole}
use site_sim.Tx.Device.{later_throws}
use site_sim.Rx.Capture.{returns}
use site_sim.Rx.Pipeline.Life.{IsActive}
use site_sim.Ui.Site.{Entries}
use site_sim.Ui.Site.Store.{Json, writable}
use site_sim.Ui.Site.Samples.{
  Value, number_value, real_value, boolean_value, numbers_of, reals_of, booleans_of, hex,
}
use site_sim.Ui.Console.{Console}
use site_sim.Ui.Console.Samples.{table, all_taken, stopped, on_air, on_air-IsOnAir}
use site_sim.Ui.App.{no_message}
use site_sim.Ui.App.Run.{
  App, Frame, nowhere, gone_panel, run_app, quit, other_event, refreshes, picks,
}
use site_sim.Ui.App.Run.Gone.{run_app_dangles}

-- The texts of files, in place of those of a JSON library.
abbrev json : Json Value ℕ ℕ
json = record {
  number = number_value;
  real = real_value;
  boolean = boolean_value;
  get_number = numbers_of;
  get_real = reals_of;
  get_boolean = booleans_of;
  dump = λ j. 1;
  parse = λ text. none;
}

abbrev console : Console ℕ ℕ
console = record stopped {
  radio = record stopped.radio { device = false; stream = false; made = 0; set_up = 0 };
}

abbrev app : App ℕ ℕ
app = record {
  console = console;
  device_list = [];
  status_msg = no_message;
  running = true;
  dock_layout_done = false;
  window = false;
  gl_ctx = false;
  file = none;
  log = nowhere;
}

abbrev entries : Entries ℕ ℕ
entries = record {
  nac = 0x293;
  wacn = 0xBEE00;
  sysid = 0x2D1;
  rfssid = none;
  siteid = none;
  tx_offset = some 5;
  presets = [];
  gain = none;
  amp = false;
  chan_id = none;
  base_freq_mhz = none;
  ch_spac = none;
  v_chan = none;
}

abbrev starting : Frame ℕ ℕ
starting = record {
  events = other_event ∷ [];
  choices = [];
  band_selector = λ hz. hz;
  entries = entries;
  apply = some all_taken;
  save = none;
  button = some piped;
}

-- The device is chosen again in vain.
abbrev choosing : Frame ℕ ℕ
choosing = record starting {
  choices = refreshes (7 ∷ 8 ∷ []) ∷ picks 1 later_throws false ∷ [];
  apply = none;
  save = some writable;
  button = none;
}

abbrev ending : Frame ℕ ℕ
ending = record choosing { events = other_event ∷ quit ∷ []; choices = []; save = none }

abbrev frames : List (Frame ℕ ℕ)
frames = starting ∷ choosing ∷ ending ∷ []

-- The application on the air, and a frame in which the user asks for the end.
abbrev running_app : App ℕ ℕ
running_app = record app { console = on_air }

run_app_dangles_example :
    (b : App ℕ ℕ) × (run_app whole json hex (λ mhz. mhz) 1024 (ending ∷ []) running_app ≡ returns b)
    × (b.running ≡ false)
    × (b.log ≡ gone_panel)
    × IsActive whole table b.console.rx
run_app_dangles_example =
    run_app_dangles whole json hex (λ mhz. mhz) 1024 table (ending ∷ []) running_app 0
      on_air-IsOnAir (refl, refl, refl) refl refl
