-- ===== src/Ui/App/Devices.antt =====
-- The devices of src/ui/App.cpp: the first, and a choice from the menu.
use site_sim.Base.{
  arith, ◌≡◌, refl, ap, ◌∙◌, List, [], ◌∷◌, none, Bool, true, false, not, ◌||◌, if◌then◌else◌,
}
use site_sim.Tx.Control.{Channel, stop}
use site_sim.Tx.Device.{
  Radio, Outcome, make_throws, make_null, later_throws, stream_null, opened, open_device, try_open,
  close, stop_tx,
}
use site_sim.Ui.Console.{Console}
use site_sim.Ui.App.{
  Entry, list_devices, Message, no_message, device_ready, open_failed, simulation_mode, auto_open,
  tried, announced, chosen, is_none, init, select_device,
}

-- `open` and `close` do not start the transmitter.
pub open_device_running :
    (outcome : Outcome) (r : Radio) → r.running ≡ false → (open_device outcome r).1.running ≡ false
unfolding open_device try_open close stop_tx
open_device_running outcome r h = ground arith

pub close_running : (r : Radio) → (close r).running ≡ false
unfolding close stop_tx
close_running r = ground arith

pub quiet_channel : (c : Channel) → (if c.running then stop c else c).running ≡ false
unfolding stop
quiet_channel c = ground arith

pub chosen_radio : {Text : Type 0} (name : Entry Text) (x : Bool × Radio) → (chosen name x).1 ≡ x.1
chosen_radio name (true, r) = refl
chosen_radio name (false, r) = refl

pub select_device_running :
    {Text : Type 0} (outcome : Outcome) (name : Entry Text) (r : Radio)
    → (select_device outcome name r).1.running ≡ false
unfolding select_device
select_device_running outcome name r =
    ap (λ (x : Radio). x.running) (chosen_radio name (open_device outcome (close r)))
    ∙ open_device_running outcome (close r) (close_running r)

-- An `open` that fails leaves an error and no device.
try_open_failed :
    (outcome : Outcome) (r : Radio)
    → ((try_open outcome r).1.device ≡ (try_open outcome r).0)
      × (((try_open outcome r).0 || not (is_none (try_open outcome r).1.last_error)) ≡ true)
unfolding try_open
try_open_failed make_throws r = (refl, refl)
try_open_failed make_null r = (refl, refl)
try_open_failed later_throws r = (refl, refl)
try_open_failed stream_null r = (refl, refl)
try_open_failed opened r = (refl, refl)

open_device_failed :
    (outcome : Outcome) (r : Radio)
    → ((open_device outcome r).1.device ≡ (open_device outcome r).0)
      × (((open_device outcome r).0 || not (is_none (open_device outcome r).1.last_error)) ≡ true)
unfolding open_device
open_device_failed outcome r = try_open_failed outcome (if r.device then close r else r)

-- What is shown for a device, by how its `open` ended.
abbrev pub shown : {Text : Type 0} → Text → Bool × Radio → Message Text
shown d (true, r) = device_ready d
shown d (false, r) = open_failed r.last_error

announced-tried :
    {Text : Type 0} (d : Text) (x : Bool × Radio)
    → (x.0 || not (is_none x.1.last_error)) ≡ true
    → announced (tried d x) ≡ (shown d x, x.1)
announced-tried d (true, r) h = refl
announced-tried d (false, r) h =
    ap (λ b. (if b then simulation_mode else open_failed r.last_error, r)) (not-true _ h)
  where
    not-true : (b : Bool) → not b ≡ true → b ≡ false
    not-true true h = cc
    not-true false h = refl

-- With no device `init` leaves the radio alone and says that it simulates. Otherwise it tries the first
-- device only: it shows that device, or the error of its `open`, and holds a device exactly if `open`
-- succeeded.
pub init_lem :
    {Text : Type 0} (opening : Text → Outcome) (d : Text) (devices : List Text) (r : Radio)
    → r.last_error ≡ none
    → (init opening [] r ≡ (simulation_mode, r))
      × (init opening (d ∷ devices) r
          ≡ (shown d (open_device (opening d) r), (open_device (opening d) r).1))
      × ((open_device (opening d) r).1.device ≡ (open_device (opening d) r).0)
unfolding init auto_open list_devices
init_lem opening d devices r fresh = (
  ap (λ e. (if is_none e then simulation_mode else no_message, r)) fresh,
  announced-tried d (open_device (opening d) r) (open_device_failed (opening d) r).1,
  (open_device_failed (opening d) r).0,
)
