-- ===== src/Ui/App.antt =====
-- `App` of src/ui/App.cpp: the device that `init` opens, the menu of devices, and `shutdown`. The windows
-- and the loop of frames are SDL's and Dear ImGui's.
pub mod Devices
pub mod Run
mod Tests
use site_sim.Base.{ℕ, List, [], ◌∷◌, map, Option, none, some, Bool, true, false, if◌then◌else◌}
use site_sim.Tx.Control.{Doubles, stop}
use site_sim.Tx.Device.{
  Radio, Outcome, make_throws, make_null, later_throws, stream_null, opened, Error, open_device,
  close, stop_tx,
}
use site_sim.Tx.Device.Tuning.{Opening, no_device, device_made, call, opens, closes}
use site_sim.Rx.Capture.{Ending, returns, waits, terminates}
use site_sim.Rx.Pipeline.{Pipeline, stop_rx}
use site_sim.Ui.Console.{Console}

-- An entry of `m_deviceList`.
pub data Entry (Text : Type 0) : Type 0 where
  no_device_found : Entry Text
  found : Text → Entry Text

-- `listDevices`, over the texts of the devices that SoapySDR enumerates, none of which has "(no device"
-- in it.
pub list_devices : {Text : Type 0} → List Text → List (Entry Text)
list_devices [] = no_device_found ∷ []
list_devices (d ∷ devices) = map found (d ∷ devices)

abbrev pub is_none : {A : Type 0} → Option A → Bool
is_none none = true
is_none (some a) = false

-- `m_statusMsg`.
pub data Message (Text : Type 0) : Type 0 where
  no_message : Message Text
  device_ready : Text → Message Text
  open_failed : Option Error → Message Text
  simulation_mode : Message Text
  list_refreshed : Message Text
  opened_device : Entry Text → Message Text
  failed : Option Error → Message Text

module _ {Text : Type 0} where
  -- What `init` makes of the end of `open` for a device.
  abbrev pub tried : Text → Bool × Radio → Bool × Message Text × Radio
  tried d (true, r) = (true, device_ready d, r)
  tried d (false, r) = (false, open_failed r.last_error, r)

  -- The loop of `init`: whether a device was opened, the message, and the radio. `opening` is how the
  -- library's calls end for a device.
  pub auto_open :
      (Text → Outcome) → List (Entry Text) → Message Text → Radio → Bool × Message Text × Radio
  auto_open opening [] msg r = (false, msg, r)
  auto_open opening (no_device_found ∷ devices) msg r = auto_open opening devices msg r
  auto_open opening (found d ∷ devices) msg r = tried d (open_device (opening d) r)

  -- The test after the loop.
  abbrev pub announced : Bool × Message Text × Radio → Message Text × Radio
  announced (true, msg, r) = (msg, r)
  announced (false, msg, r) = (if is_none r.last_error then simulation_mode else msg, r)

  -- The end of `init`, with a new application.
  pub init : (Text → Outcome) → List Text → Radio → Message Text × Radio
  init opening devices r = announced (auto_open opening (list_devices devices) no_message r)

  abbrev pub chosen : Entry Text → Bool × Radio → Message Text × Radio
  chosen name (true, r) = (opened_device name, r)
  chosen name (false, r) = (failed r.last_error, r)

  -- A choice from the menu of devices. `outcome` is how the library's calls end in `open`.
  pub select_device : Outcome → Entry Text → Radio → Message Text × Radio
  select_device outcome name r = chosen name (open_device outcome (close r))

-- What `open` does to the settings, by how the library's calls end; a flag says whether the amplifier
-- takes its setting.
abbrev pub opening_of : Outcome → Bool → Opening
opening_of opened takes = device_made takes
opening_of make_throws takes = no_device
opening_of make_null takes = no_device
opening_of later_throws takes = no_device
opening_of stream_null takes = no_device

module _ {Text Double : Type 0} where
  -- The entry of the menu, over all components.
  pub choose_device :
      Doubles Double → Outcome → Bool → Entry Text → Console Text Double → Console Text Double
  choose_device doubles outcome takes name c =
      let set = call (doubles.literal 14) (doubles.literal 0) in
      record c {
        radio = (select_device outcome name c.radio).1;
        tuner = set (opens (opening_of outcome takes)) (set closes c.tuner);
      }

  -- The end of `shutdown`, when `stop` of the receiver has returned.
  abbrev pub with_quiet :
      Console Text Double → Ending (Pipeline Double) → Ending (Console Text Double)
  with_quiet c waits = waits
  with_quiet c terminates = terminates
  with_quiet c (returns rx) = returns (record c {
    rx = rx;
    channel = if c.channel.running then stop c.channel else c.channel;
    radio = close (stop_tx c.radio);
  })

  -- `shutdown`, up to SDL's part.
  pub shutdown : ℕ → Console Text Double → Ending (Console Text Double)
  shutdown limit c = with_quiet c (if c.rx.running then stop_rx limit c.rx else returns c.rx)
