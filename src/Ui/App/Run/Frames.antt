-- ===== src/Ui/App/Run/Frames.antt =====
-- The frames of `run` in src/ui/App.cpp.
use site_sim.Base.{
  ℕ, ◌+◌, ◌≡◌, refl, ◌∙◌, subst, List, [], ◌∷◌, Option, none, some, get_elem?, Bool, true, false,
  ◌||◌, arith,
}
use site_sim.Tx.Control.{Doubles}
use site_sim.Tx.Device.{Radio, Outcome}
use site_sim.Tx.Device.Balance.{calls_open, thrown}
use site_sim.Rx.Capture.{Table}
use site_sim.Rx.Pipeline.Captured.{Gives}
use site_sim.Ui.Console.{Console}
use site_sim.Ui.App.{Entry}
use site_sim.Ui.App.Run.{
  Event, quit, window_close, other_event, Choice, quits, refreshes, picks, Frame, App, poll, picked,
  choose, choose_all, system_of,
}
use site_sim.Ui.App.Run.Steady.{
  IsAccounted, IsSteady, choose_device-IsSteady, choose_device-IsAccounted,
}

-- How many choices of a device throw after the device was made.
abbrev pub throws : {Text : Type 0} → List (Choice Text) → ℕ
throws [] = 0
throws (quits ∷ choices) = throws choices
throws (refreshes devices ∷ choices) = throws choices
throws (picks i outcome takes ∷ choices) = thrown (calls_open outcome ∷ []) + throws choices

abbrev pub all_throws : {Text Double : Type 0} → List (Frame Text Double) → ℕ
all_throws [] = 0
all_throws (f ∷ frames) = throws f.choices + all_throws frames

-- The user asks for the end.
abbrev pub asks : List Event → Bool
asks [] = false
asks (quit ∷ events) = true
asks (window_close ∷ events) = true
asks (other_event ∷ events) = asks events

abbrev pub chooses_quit : {Text : Type 0} → List (Choice Text) → Bool
chooses_quit [] = false
chooses_quit (quits ∷ choices) = true
chooses_quit (refreshes devices ∷ choices) = chooses_quit choices
chooses_quit (picks i outcome takes ∷ choices) = chooses_quit choices

abbrev pub any_ends : {Text Double : Type 0} → List (Frame Text Double) → Bool
any_ends [] = false
any_ends (f ∷ frames) = asks f.events || chooses_quit f.choices || any_ends frames

-- In each frame whose button is pressed, the system gives descriptors that are free, or no pipe.
abbrev pub AllGive : {Text Double : Type 0} → Table → List (Frame Text Double) → Type 0
AllGive t [] = Unit
AllGive t (f ∷ frames) = Gives t (system_of f.button) × AllGive t frames

pub more : (n k : ℕ) (r : Radio) → IsAccounted n r → IsAccounted (n + k) r
more n k r (lost, few, balanced) = (lost, omega (arith, few), balanced)

module _ {Text Double : Type 0} (doubles : Doubles Double) (t : Table) where
  -- Steady, with so many devices lost at most.
  pub record IsGood (n : ℕ) (c : Console Text Double) : Type 0 where
    pub steady : IsSteady doubles t c
    pub accounted : IsAccounted n c.radio

  picked-IsGood :
      (outcome : Outcome) (takes : Bool) (entry : Option (Entry Text)) (n : ℕ) (a : App Text Double)
      → IsGood n a.console
      → IsGood (n + thrown (calls_open outcome ∷ [])) (picked doubles outcome takes entry a).console
  picked-IsGood outcome takes none n a good = record {
    steady = good.steady;
    accounted = more n (thrown (calls_open outcome ∷ [])) a.console.radio good.accounted;
  }
  picked-IsGood outcome takes (some entry) n a good = record {
    steady = choose_device-IsSteady doubles t outcome takes entry a.console good.steady;
    accounted = choose_device-IsAccounted doubles outcome takes entry n a.console good.accounted;
  }

  pub choose_all-IsGood :
      (choices : List (Choice Text)) (n : ℕ) (a : App Text Double)
      → IsGood n a.console
      → IsGood (n + throws choices) (choose_all doubles choices a).console
  unfolding choose
  choose_all-IsGood [] n a good = record {
    steady = good.steady;
    accounted = more n 0 a.console.radio good.accounted;
  }
  choose_all-IsGood (quits ∷ choices) n a good =
      choose_all-IsGood choices n (choose doubles quits a) good
  choose_all-IsGood (refreshes devices ∷ choices) n a good =
      choose_all-IsGood choices n (choose doubles (refreshes devices) a) good
  choose_all-IsGood (picks i outcome takes ∷ choices) n a good =
      let b = choose doubles (picks i outcome takes) a in
      let one = picked-IsGood outcome takes (get_elem? a.device_list i) n a good in
      let sum : n + thrown (calls_open outcome ∷ []) + throws choices
          ≡ n + (thrown (calls_open outcome ∷ []) + throws choices) =
        omega arith in
      subst (λ k. IsGood k (choose_all doubles choices b).console) sum
        (choose_all-IsGood choices (n + thrown (calls_open outcome ∷ [])) b one)

-- A flag that is clear stays clear.
poll_cleared : (events : List Event) → poll events false ≡ false
unfolding poll
poll_cleared [] = refl
poll_cleared (quit ∷ events) = poll_cleared events
poll_cleared (window_close ∷ events) = poll_cleared events
poll_cleared (other_event ∷ events) = poll_cleared events

pub poll-asks : (events : List Event) (b : Bool) → asks events ≡ true → poll events b ≡ false
unfolding poll
poll-asks [] b h = cc h
poll-asks (quit ∷ events) b h = poll_cleared events
poll-asks (window_close ∷ events) b h = poll_cleared events
poll-asks (other_event ∷ events) b h = poll-asks events b h

module _ {Text Double : Type 0} (doubles : Doubles Double) where
  picked_running :
      (outcome : Outcome) (takes : Bool) (entry : Option (Entry Text)) (a : App Text Double)
      → (picked doubles outcome takes entry a).running ≡ a.running
  picked_running outcome takes none a = refl
  picked_running outcome takes (some entry) a = refl

  pub choose_all_stopped :
      (choices : List (Choice Text)) (a : App Text Double)
      → a.running ≡ false
      → (choose_all doubles choices a).running ≡ false
  unfolding choose
  choose_all_stopped [] a h = h
  choose_all_stopped (quits ∷ choices) a h =
      choose_all_stopped choices (choose doubles quits a) refl
  choose_all_stopped (refreshes devices ∷ choices) a h =
      choose_all_stopped choices (choose doubles (refreshes devices) a) h
  choose_all_stopped (picks i outcome takes ∷ choices) a h =
      choose_all_stopped choices (choose doubles (picks i outcome takes) a)
        (picked_running outcome takes (get_elem? a.device_list i) a ∙ h)

  pub choose_all_quits :
      (choices : List (Choice Text)) (a : App Text Double)
      → chooses_quit choices ≡ true
      → (choose_all doubles choices a).running ≡ false
  unfolding choose
  choose_all_quits [] a h = cc h
  choose_all_quits (quits ∷ choices) a h = choose_all_stopped choices (choose doubles quits a) refl
  choose_all_quits (refreshes devices ∷ choices) a h =
      choose_all_quits choices (choose doubles (refreshes devices) a) h
  choose_all_quits (picks i outcome takes ∷ choices) a h =
      choose_all_quits choices (choose doubles (picks i outcome takes) a) h
