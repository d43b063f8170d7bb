-- ===== src/Rx/Pipeline/Dead.antt =====
-- `RxPipeline` of src/rx/RxPipeline.cpp once its engine has returned by itself.
use site_sim.Base.{ℕ, ◌≡◌, ◌≢◌, refl, sym, ap, ◌∙◌, Bool, false}
use site_sim.Tx.Control.{Doubles}
use site_sim.Rx.Capture.{
  Table, System, Capture, Ending, returns, waits, terminates, start_stderr_capture,
}
use site_sim.Rx.Pipeline.{
  Pipeline, engine_gone, launch, destroy_members, start_rx, stop_rx, engine_returns, destroy_rx,
}
use site_sim.Rx.Pipeline.Life.{IsActive, start_if, stop_if, members_if}

module _ {Double : Type 0} (doubles : Doubles Double) (t : Table) where
  -- The engine has returned by itself.
  pub record IsDead (p : Pipeline Double) : Type 0 where
    pub stopped : p.running ≡ false
    pub gone : p.thread ≡ engine_gone

  pub engine_returns-IsDead :
      (p : Pipeline Double) → IsActive doubles t p → IsDead (engine_returns p)
  unfolding engine_returns
  engine_returns-IsDead p active = rw active.runs (record { stopped = refl; gone = refl })

  -- Once the engine has returned by itself, `stop` does nothing and the destructor terminates.
  pub dead_ends :
      (p : Pipeline Double) (limit : ℕ)
      → IsDead p
      → (stop_rx limit p ≡ returns p) × (destroy_rx limit p ≡ terminates)
  unfolding stop_rx destroy_rx
  dead_ends p limit dead =
      let same = ap (stop_if doubles t p limit) dead.stopped in
      (same, ap destroy_members same ∙ ap (λ th. members_if doubles t th p.capture) dead.gone)

  launch_gone :
      (p : Pipeline Double) (s : Ending (Table × Capture)) (x : Bool × Pipeline Double)
      → launch doubles p engine_gone s ≢ returns x
  launch_gone p waits x e = cc
  launch_gone p terminates x e = cc
  launch_gone p (returns r) x e = cc

  -- A start after the engine has returned by itself does not return.
  pub dead_start :
      (p : Pipeline Double) (x : Bool × Pipeline Double) (system : System)
      → IsDead p
      → start_rx doubles system p ≢ returns x
  unfolding start_rx
  dead_start p x system dead e =
      let begun = start_stderr_capture system p.table p.capture in
      let stopped = ap (start_if doubles t p system) dead.stopped in
      launch_gone p begun x (sym (stopped ∙ ap (λ th. launch doubles p th begun) dead.gone) ∙ e)
