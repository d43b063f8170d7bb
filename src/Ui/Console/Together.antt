-- ===== src/Ui/Console/Together.antt =====
-- Frames of the panels of src/ui in any order: edits, `Apply` and the button of the control channel.
use site_sim.Base.{arith, ℕ, ◌≡◌, ◌⊎◌, true, if◌then◌else◌}
use site_sim.Tx.Control.{Doubles, Channel, start, stop}
use site_sim.Rx.Capture.{Table, System, returns}
use site_sim.Rx.Pipeline.Captured.{Gives}
use site_sim.Ui.Site.{Entries, Hex, edit_fields}
use site_sim.Ui.Console.{Console, Takes, press_apply, render_button}
use site_sim.Ui.Console.Buttons.{IsStopped, IsOnAir}

pub ending-injective : {A : Type 0} (a b : A) → returns a ≡ returns b → a ≡ b
ending-injective a b h = cc

-- `Apply` leaves the producer running or stopped.
pub restart_running : (c : Channel) → (if c.running then start (stop c) else c).running ≡ c.running
unfolding start stop
restart_running c = ground arith

module _ {Text Double : Type 0} (doubles : Doubles Double) (hex : Hex Text) (t : Table)
    (limit : ℕ) where
  pub data Step : Console Text Double → Console Text Double → Type 0 where
    edits :
        (band_selector from_mhz : Double → Double) (w : Entries Text Double)
        (c : Console Text Double)
        → Step c (record c { panel = edit_fields band_selector from_mhz w c.panel })
    applies : (takes : Takes) (c : Console Text Double) → Step c (press_apply doubles hex takes c)
    presses :
        (system : System) (c d : Console Text Double)
        → Gives t system
        → render_button doubles system limit true c ≡ returns d
        → Step c d

  pub data Reach (c : Console Text Double) : Console Text Double → Type 0 where
    here : Reach c c
    next : {d e : Console Text Double} → Reach c d → Step d e → Reach c e

  abbrev pub IsTogether : Console Text Double → Type 0
  IsTogether c = IsStopped doubles t c ⊎ IsOnAir doubles t c
