-- ===== src/Ui/Console/Samples.antt =====
-- Data that tests share: a panel that is stopped, and one on the air.
use site_sim.Base.{ℕ, refl, none, some, true, false, []}
use site_sim.Tx.Control.Samples.{whole, site}
use site_sim.Rx.Capture.{Table, no_capture}
use site_sim.Rx.Capture.Samples.{standard}
use site_sim.Rx.Pipeline.{no_engine, engine_runs, receive_opts}
use site_sim.Rx.Pipeline.Captured.{nothing}
use site_sim.Ui.Site.Samples.{panel}
use site_sim.Ui.Console.{Console, Takes}
use site_sim.Ui.Console.Buttons.{IsStopped, IsOnAir}

abbrev pub table : Table
table = standard

abbrev pub all_taken : Takes
all_taken = record { frequency = true; gain = true; amp = false }

abbrev pub stopped : Console ℕ ℕ
stopped = record {
  panel = panel;
  channel_cfg = record site { sysid = 1 };
  channel = record {
    running = false;
    tsbk_queue = [];
    log = [];
    frame_count = 0;
    sys_idx = 0;
    frame_n = 0;
  };
  tuner = record {
    settings = record {
      sample_rate = 2400000;
      frequency = 145050000;
      gain = 20;
      amp_enabled = false;
    };
    device = none;
  };
  radio = record {
    device = true;
    stream = true;
    running = false;
    last_error = none;
    made = 1;
    unmade = 0;
    set_up = 1;
    closed = 0;
  };
  rx = record {
    cfg = site;
    opts = none;
    state = false;
    thread = no_engine;
    running = false;
    exitflag = false;
    hooks = false;
    capture = no_capture;
    table = table;
  };
}

pub stopped-IsStopped : IsStopped whole table stopped
stopped-IsStopped = record {
  channel_off = refl;
  radio_off = refl;
  rx_idle = record {
    not_running = refl;
    no_thread = refl;
    no_options = refl;
    no_state = refl;
    no_hooks = refl;
    no_capture_now = refl;
    same_table = refl;
  };
}

abbrev pub on_air : Console ℕ ℕ
on_air = record stopped {
  channel = record stopped.channel { running = true };
  radio = record stopped.radio { running = true };
  rx = record stopped.rx {
    opts = some (receive_opts 151000000);
    state = true;
    thread = engine_runs;
    running = true;
    hooks = true;
  };
}

pub on_air-IsOnAir : IsOnAir whole table on_air
on_air-IsOnAir = record {
  channel_on = refl;
  radio_on = refl;
  rx_active = record {
    is_running = refl;
    runs = refl;
    has_options = refl;
    has_state = refl;
    hooked = refl;
    captures = nothing;
  };
}
