-- ===== src/Ui/App/Run/Exit.antt =====
-- How `main` of src/main.cpp ends.
use site_sim.Base.{ℕ, ◌≡◌, List, [], ◌∷◌, Bool, false}
use site_sim.Tx.Control.{Doubles}
use site_sim.Tx.Device.{Outcome}
use site_sim.Tx.Device.Balance.{calls_open, thrown}
use site_sim.Rx.Capture.{Table, returns}
use site_sim.Ui.Site.{Hex}
use site_sim.Ui.Site.Store.{Json}
use site_sim.Ui.App.Run.{Screen, Fate, ends, undefined, no_sdl, no_window, no_context, shown, App}
use site_sim.Ui.App.Run.Ended.{IsEnded}

-- Whether the `open` of `init` throws after the device was made.
abbrev pub first_throws : {Text : Type 0} → (Text → Outcome) → List Text → ℕ
first_throws opening [] = 0
first_throws opening (d ∷ devices) = thrown (calls_open (opening d) ∷ [])

module _ {Value Text Double : Type 0} (doubles : Doubles Double) (json : Json Value Text Double)
    (hex : Hex Text) (from_mhz : Double → Double) (t : Table) (limit : ℕ) where
  -- `main` has ended with a code: the application behind it.
  pub record IsExit (n code : ℕ) (running : Bool) (x : Fate (ℕ × App Text Double)) : Type 0 where
    pub left : App Text Double
    pub exited : x ≡ ends (returns (code, left))
    pub ended : IsEnded doubles t limit n left.console
    pub flag : left.running ≡ running
    pub window_gone : left.window ≡ false
    pub context_gone : left.gl_ctx ≡ false

  -- What becomes of `main` for each screen.
  abbrev pub IsFate : Screen → (n : ℕ) (running : Bool) → Fate (ℕ × App Text Double) → Type 0
  IsFate no_sdl n running x = IsExit n 1 running x
  IsFate no_window n running x = IsExit n 1 running x
  IsFate no_context n running x = x ≡ undefined
  IsFate shown n running x = IsExit n 0 false x
