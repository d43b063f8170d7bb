-- ===== src/Ui/App/Run.antt =====
-- `App` of src/ui/App.cpp from `init` to its destructor, and `main` of src/main.cpp: what SDL and Dear ImGui
-- report in each frame is an argument. The receiver's engine and its system are as in Rx/Pipeline.
pub mod Steady
pub mod Frames
pub mod Loop
pub mod Ended
pub mod Exit
pub mod Gone
mod Tests
use site_sim.Base.{
  ℕ, ◌+◌, List, [], ◌∷◌, Option, none, some, get_elem?, Bool, true, false, if◌then◌else◌, ◌&&◌,
}
use site_sim.Tx.Control.{Doubles, stop}
use site_sim.Tx.Device.{Outcome, close, stop_tx}
use site_sim.Tx.Device.Tuning.{Tuner, call, opens}
use site_sim.Rx.Capture.{System, Ending, returns, waits, terminates}
use site_sim.Rx.Pipeline.{destroy_rx}
use site_sim.Ui.Site.{Hex, Entries, edit_fields}
use site_sim.Ui.Site.Store.{Json, Disk, save_config}
use site_sim.Ui.Console.{Console, Takes, press_apply, render_button}
use site_sim.Ui.App.{
  Entry, list_devices, Message, no_message, list_refreshed, init, select_device, opening_of,
  choose_device, shutdown,
}

-- An event of SDL.
pub data Event : Type 0 where
  quit : Event
  window_close : Event
  other_event : Event

-- A choice from the menus.
pub data Choice (Text : Type 0) : Type 0 where
  quits : Choice Text
  refreshes : List Text → Choice Text
  picks : ℕ → Outcome → Bool → Choice Text

-- What is reported in a frame: the events, the choices, the band selector's part and the entries of the
-- site panel, `Apply` and `Save` with how the device and the disk take them, and the button of the
-- control panel with how the system opens a capture.
pub record Frame (Text Double : Type 0) : Type 0 where
  pub events : List Event
  pub choices : List (Choice Text)
  pub band_selector : Double → Double
  pub entries : Entries Text Double
  pub apply : Option Takes
  pub save : Option Disk
  pub button : Option System

-- What the receiver's log callback refers to: nothing, the log panel of `run`, or that panel after its end.
pub data LogTarget : Type 0 where
  nowhere : LogTarget
  log_panel : LogTarget
  gone_panel : LogTarget

-- `App`: the window and the context of its drawing by whether they are set. `file` is the file of the
-- configuration.
pub record App (Text Double : Type 0) : Type 0 where
  pub console : Console Text Double
  pub device_list : List (Entry Text)
  pub status_msg : Message Text
  pub running : Bool
  pub dock_layout_done : Bool
  pub window : Bool
  pub gl_ctx : Bool
  pub file : Option Text
  pub log : LogTarget

abbrev pub and_then : {A B : Type 0} → Ending A → (A → Ending B) → Ending B
and_then (returns a) f = f a
and_then waits f = waits
and_then terminates f = terminates

-- The loop of `SDL_PollEvent`: what `m_running` becomes.
pub poll : List Event → Bool → Bool
poll [] running = running
poll (quit ∷ events) running = poll events false
poll (window_close ∷ events) running = poll events false
poll (other_event ∷ events) running = poll events running

abbrev pub is_pressed : Option System → Bool
is_pressed none = false
is_pressed (some system) = true

-- How the system would open a capture in a frame.
abbrev pub system_of : Option System → System
system_of none = record { pipe = none; dup = none }
system_of (some system) = system

-- What becomes of the program: it ends in some way, or it does what C++ does not define.
pub data Fate (A : Type 0) : Type 0 where
  ends : Ending A → Fate A
  undefined : Fate A

-- How SDL makes the window: not at all, without a window, without a context, or with both.
pub data Screen : Type 0 where
  no_sdl : Screen
  no_window : Screen
  no_context : Screen
  shown : Screen

module _ {Text Double : Type 0} (doubles : Doubles Double) where
  abbrev pub picked : Outcome → Bool → Option (Entry Text) → App Text Double → App Text Double
  picked outcome takes none a = a
  picked outcome takes (some entry) a = record a {
    console = choose_device doubles outcome takes entry a.console;
    status_msg = (select_device outcome entry a.console.radio).0;
  }

  -- An item of the menus.
  pub choose : Choice Text → App Text Double → App Text Double
  choose quits a = record a { running = false }
  choose (refreshes devices) a = record a {
    device_list = list_devices devices;
    status_msg = list_refreshed;
  }
  choose (picks i outcome takes) a = picked outcome takes (get_elem? a.device_list i) a

  abbrev pub choose_all : List (Choice Text) → App Text Double → App Text Double
  choose_all [] a = a
  choose_all (choice ∷ choices) a = choose_all choices (choose choice a)

  -- The device that `init` tries, and its settings.
  abbrev pub tuned_first :
      (Text → Outcome) → (Text → Bool) → List Text → Tuner Double → Tuner Double
  tuned_first opening takes [] tuner = tuner
  tuned_first opening takes (d ∷ devices) tuner =
      call (doubles.literal 14) (doubles.literal 0) (opens (opening_of (opening d) (takes d))) tuner

  -- `init` behind the window.
  pub init_devices :
      (Text → Outcome) → (Text → Bool) → List Text → App Text Double → App Text Double
  init_devices opening takes devices a =
      let (msg, radio) = init opening devices a.console.radio in
      record a {
        device_list = list_devices devices;
        status_msg = msg;
        console = record a.console {
          radio = radio;
          tuner = tuned_first opening takes devices a.console.tuner;
        };
      }

  -- `init`, and `none` where its behaviour is undefined: a null context is not looked at, and Dear ImGui
  -- then reads the version of OpenGL from a null pointer.
  pub init_app :
      Screen
      → (Text → Outcome)
      → (Text → Bool)
      → List Text
      → App Text Double
      → Option (Bool × App Text Double)
  init_app no_sdl opening takes devices a = some (false, a)
  init_app no_window opening takes devices a = some (false, a)
  init_app no_context opening takes devices a = none
  init_app shown opening takes devices a =
      some (true, init_devices opening takes devices (record a { window = true; gl_ctx = true }))

module _ {Text Double : Type 0} (limit : ℕ) where
  -- The destructors of the members, the receiver's first.
  abbrev pub destroy_members : App Text Double → Ending (App Text Double)
  destroy_members a = and_then (destroy_rx limit a.console.rx) (λ done. returns (record a {
    console = record a.console {
      channel = stop a.console.channel;
      radio = close (stop_tx a.console.radio);
    };
  }))

  -- The destructor of `App`.
  pub destroy : App Text Double → Ending (App Text Double)
  destroy a =
      and_then (shutdown limit a.console)
        (λ c. destroy_members (record a { console = c; window = false; gl_ctx = false }))

module _ {Text Double : Type 0} where
  abbrev pub exits : ℕ → Ending (App Text Double) → Ending (ℕ × App Text Double)
  exits code ending = and_then ending (λ a. returns (code, a))

module _ {Value Text Double : Type 0} (doubles : Doubles Double) (json : Json Value Text Double)
    (hex : Hex Text) (from_mhz : Double → Double) (limit : ℕ) where
  abbrev pub applied_if : Option Takes → Console Text Double → Console Text Double
  applied_if none c = c
  applied_if (some takes) c = press_apply doubles hex takes c

  -- `SitePanel::render` up to its buttons, and `Apply`.
  pub render_site : Frame Text Double → Console Text Double → Console Text Double
  render_site f c =
      applied_if f.apply
        (record c { panel = edit_fields f.band_selector from_mhz f.entries c.panel })

  abbrev pub saved_if : Option Disk → App Text Double → App Text Double
  saved_if none a = a
  saved_if (some disk) a =
      let (status, file) = save_config json disk a.console.panel.cfg a.file in
      record a {
        console = record a.console { panel = record a.console.panel { status = status } };
        file = file;
      }

  abbrev pub pressed_if : Option System → Console Text Double → Ending (Console Text Double)
  pressed_if button c = render_button doubles (system_of button) limit (is_pressed button) c

  -- A frame up to the control panel: the events, `setupDocking`, the menus and the site panel.
  pub before_button : Frame Text Double → App Text Double → App Text Double
  before_button f a =
      let polled = record a { running = poll f.events a.running; dock_layout_done = true } in
      let chosen = choose_all doubles f.choices polled in
      saved_if f.save (record chosen { console = render_site f chosen.console })

  pub frame : Frame Text Double → App Text Double → Ending (App Text Double)
  frame f a =
      let b = before_button f a in
      and_then (pressed_if f.button b.console) (λ c. returns (record b { console = c }))

  -- The loop of `run`, over the frames to come.
  pub run : List (Frame Text Double) → App Text Double → Ending (App Text Double)
  run [] a = returns a
  run (f ∷ frames) a = if a.running then and_then (frame f a) (run frames) else returns a

  -- `run`, with the log panel on its stack.
  abbrev pub run_app : List (Frame Text Double) → App Text Double → Ending (App Text Double)
  run_app frames a =
      and_then (run frames (record a { log = log_panel }))
        (λ b. returns (record b { log = gone_panel }))

  -- After `run`. A receiver that runs and logs before its `stop` calls back into the log panel that is gone.
  abbrev pub after_run : Bool → Ending (App Text Double) → Fate (ℕ × App Text Double)
  after_run logs_late waits = ends waits
  after_run logs_late terminates = ends terminates
  after_run logs_late (returns b) =
      if logs_late && b.console.rx.running then undefined else ends (exits 0 (destroy limit b))

  abbrev pub after_init :
      Bool → List (Frame Text Double) → Option (Bool × App Text Double) → Fate (ℕ × App Text Double)
  after_init logs_late frames none = undefined
  after_init logs_late frames (some (false, a)) = ends (exits 1 (destroy limit a))
  after_init logs_late frames (some (true, a)) = after_run logs_late (run_app frames a)

  -- `main`, with the frames to come, and whether the threads of the receiver log a line between the end of
  -- `run` and that of the receiver's `stop`.
  pub main :
      Bool
      → Screen
      → (Text → Outcome)
      → (Text → Bool)
      → List Text
      → List (Frame Text Double)
      → App Text Double
      → Fate (ℕ × App Text Double)
  main logs_late screen opening takes devices frames a =
      after_init logs_late frames (init_app doubles screen opening takes devices a)
