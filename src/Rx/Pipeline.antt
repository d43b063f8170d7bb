-- ===== src/Rx/Pipeline.antt =====
-- The life of `RxPipeline` of src/rx/RxPipeline.cpp, built with dsd-neo: `configure`, `start`, `stop`,
-- the engine thread and the destructor. dsd-neo is a parameter: its initial options, and the engine,
-- which returns when `exitflag` is set and may return before. The lines that are logged are left out.
pub mod Captured
pub mod Life
pub mod Dead
pub mod Reach
pub mod Stuck
mod Tests
use site_sim.Base.{ℕ, Option, none, some, Bool, true, false, if◌then◌else◌}
use site_sim.Tx.Control.{Doubles, SiteConfig, rx_freq_hz}
use site_sim.Rx.Capture.{
  Table, System, Capture, Ending, returns, waits, terminates, no_capture, start_stderr_capture,
  stop_stderr_capture,
}

-- The options that `start` sets. `audio_in_rtl` is for `audio_in_type` and `audio_in_dev`.
pub record DsdOpts : Type 0 where
  pub audio_in_rtl : Bool
  pub rtlsdr_center_freq : ℕ
  pub rtl_gain_value : ℕ
  pub rtlsdr_ppm_error : ℕ
  pub rtl_dsp_bw_khz : ℕ
  pub rtl_dev_index : ℕ
  pub frame_p25p1 : ℕ
  pub frame_p25p2 : ℕ
  pub frame_dstar : ℕ
  pub frame_x2tdma : ℕ
  pub frame_nxdn48 : ℕ
  pub frame_nxdn96 : ℕ
  pub frame_dmr : ℕ
  pub frame_provoice : ℕ
  pub frame_dpmr : ℕ
  pub frame_ysf : ℕ
  pub frame_m17 : ℕ
  pub p25_trunk : ℕ
  pub p25_isp_mode : ℕ
  pub errorbars : ℕ
  pub verbose : ℕ

pub receive_opts : ℕ → DsdOpts
receive_opts center = record {
  audio_in_rtl = true;
  rtlsdr_center_freq = center;
  rtl_gain_value = 0;
  rtlsdr_ppm_error = 0;
  rtl_dsp_bw_khz = 24;
  rtl_dev_index = 0;
  frame_p25p1 = 1;
  frame_p25p2 = 0;
  frame_dstar = 0;
  frame_x2tdma = 0;
  frame_nxdn48 = 0;
  frame_nxdn96 = 0;
  frame_dmr = 0;
  frame_provoice = 0;
  frame_dpmr = 0;
  frame_ysf = 0;
  frame_m17 = 0;
  p25_trunk = 0;
  p25_isp_mode = 1;
  errorbars = 1;
  verbose = 2;
}

-- `m_thread`: not joinable, with the engine in it, or joinable with the engine gone.
pub data Engine : Type 0 where
  no_engine : Engine
  engine_runs : Engine
  engine_gone : Engine

abbrev pub is_joinable : Engine → Bool
is_joinable no_engine = false
is_joinable engine_runs = true
is_joinable engine_gone = true

-- The members, dsd-neo's `exitflag`, whether its hooks are set, and the table of descriptors.
pub record Pipeline (Double : Type 0) : Type 0 where
  pub cfg : SiteConfig Double
  pub opts : Option DsdOpts
  pub state : Bool
  pub thread : Engine
  pub running : Bool
  pub exitflag : Bool
  pub hooks : Bool
  pub capture : Capture
  pub table : Table

-- `configure`
unfoldable pub configure_rx :
    {Double : Type 0} → SiteConfig Double → Pipeline Double → Pipeline Double
configure_rx cfg p = record p { cfg = cfg }

module _ {Double : Type 0} (doubles : Doubles Double) where
  -- The rest of `start` after the capture, with `m_thread`. A thread that is assigned to while it is
  -- joinable terminates the program.
  abbrev pub launch :
      Pipeline Double → Engine → Ending (Table × Capture) → Ending (Bool × Pipeline Double)
  launch p thread waits = waits
  launch p thread terminates = terminates
  launch p thread (returns (table, capture)) =
      if is_joinable thread
      then terminates
      else returns (
        true,
        record p {
          opts = some (receive_opts (doubles.to_uint32 (rx_freq_hz doubles p.cfg)));
          state = true;
          thread = engine_runs;
          running = true;
          exitflag = false;
          hooks = true;
          capture = capture;
          table = table;
        },
      )

  -- `start`
  pub start_rx : System → Pipeline Double → Ending (Bool × Pipeline Double)
  start_rx system p =
      if p.running
      then returns (true, p)
      else launch p p.thread (start_stderr_capture system p.table p.capture)

-- `engineThread`, when the engine returns.
pub engine_returns : {Double : Type 0} → Pipeline Double → Pipeline Double
engine_returns p = elim p.thread [
  | no_engine ↦ p
  | engine_runs ↦ record p { thread = engine_gone; running = false }
  | engine_gone ↦ p
]

-- The hooks behind `stop`, which clears them if there are options.
abbrev pub cleared : Option DsdOpts → Bool → Bool
cleared none hooks = hooks
cleared (some opts) hooks = false

module _ {Double : Type 0} where
  -- The end of `stop` after the capture.
  abbrev pub release : Pipeline Double → Ending (Table × Capture) → Ending (Pipeline Double)
  release p waits = waits
  release p terminates = terminates
  release p (returns (table, capture)) = returns (record p {
    opts = none;
    state = false;
    thread = no_engine;
    running = false;
    exitflag = true;
    hooks = cleared p.opts p.hooks;
    capture = capture;
    table = table;
  })

  -- `stop`, with so many descriptors at most. The join waits for the engine, which sees `exitflag`.
  pub stop_rx : ℕ → Pipeline Double → Ending (Pipeline Double)
  stop_rx limit p =
      if p.running then release p (stop_stderr_capture limit p.table p.capture) else returns p

  -- The destructors of the members: a joinable thread terminates the program.
  abbrev pub destroy_members : Ending (Pipeline Double) → Ending (Unit {0})
  destroy_members waits = waits
  destroy_members terminates = terminates
  destroy_members (returns p) =
      if is_joinable p.thread
      then terminates
      else if p.capture.stderr_thread
      then terminates
      else returns tt

  -- The destructor.
  pub destroy_rx : ℕ → Pipeline Double → Ending (Unit {0})
  destroy_rx limit p = destroy_members (stop_rx limit p)
