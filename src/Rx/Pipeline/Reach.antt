-- ===== src/Rx/Pipeline/Reach.antt =====
-- Calls of the owner of `RxPipeline` of src/rx/RxPipeline.cpp in any order, while the engine runs until
-- it is told to return, and what follows if it returns by itself.
use site_sim.Base.{ℕ, ◌≡◌, ◌≢◌, ◌⊎◌, inl, inr, sym, subst, ap, ◌∙◌, Bool, true}
use site_sim.Tx.Control.{Doubles, SiteConfig}
use site_sim.Rx.Capture.{Table, System, returns, terminates}
use site_sim.Rx.Pipeline.{Pipeline, configure_rx, start_rx, stop_rx, engine_returns, destroy_rx}
use site_sim.Rx.Pipeline.Life.{
  IsIdle, IsActive, start-IsActive, stop-IsIdle, start_running, stop_stopped, configure-IsIdle,
  configure-IsActive,
}
use site_sim.Rx.Pipeline.Captured.{Gives}
use site_sim.Rx.Pipeline.Dead.{engine_returns-IsDead, dead_ends, dead_start}

returns-injective : {A : Type 0} (a b : A) → returns a ≡ returns b → a ≡ b
returns-injective a b h = cc

module _ {Double : Type 0} (doubles : Doubles Double) (t : Table) (limit : ℕ) where
  -- A call of the owner that returns.
  pub data Step : Pipeline Double → Pipeline Double → Type 0 where
    configures : (cfg : SiteConfig Double) (p : Pipeline Double) → Step p (configure_rx cfg p)
    starts :
        (system : System) (p q : Pipeline Double)
        → Gives t system
        → start_rx doubles system p ≡ returns (true, q)
        → Step p q
    stops : (p q : Pipeline Double) → stop_rx limit p ≡ returns q → Step p q

  pub data Reach (p : Pipeline Double) : Pipeline Double → Type 0 where
    here : Reach p p
    next : {q r : Pipeline Double} → Reach p q → Step q r → Reach p r

  abbrev pub IsSound : Pipeline Double → Type 0
  IsSound p = IsIdle doubles t p ⊎ IsActive doubles t p

  Step-IsSound : {p q : Pipeline Double} → Step p q → IsSound p → IsSound q
  Step-IsSound (configures cfg p) (inl idle) = inl (configure-IsIdle doubles t cfg p idle)
  Step-IsSound (configures cfg p) (inr active) = inr (configure-IsActive doubles t cfg p active)
  Step-IsSound (starts system p q gives e) (inl idle) =
      let (r, begun, active) = start-IsActive doubles t p system idle gives in
      inr (
        subst (IsActive doubles t)
          (ap (λ x. x.1) (returns-injective (true, r) (true, q) (sym begun ∙ e))) active)
  Step-IsSound (starts system p q gives e) (inr active) = inr (
      subst (IsActive doubles t)
        (ap (λ x. x.1)
          (returns-injective (true, p) (true, q)
            (sym (start_running doubles t p system active.is_running) ∙ e)))
        active)
  Step-IsSound (stops p q e) (inl idle) = inl (
      subst (IsIdle doubles t)
        (returns-injective p q (sym (stop_stopped doubles t p limit idle.not_running) ∙ e)) idle)
  Step-IsSound (stops p q e) (inr active) =
      let (r, ended, idle) = stop-IsIdle doubles t p limit active in
      inl (subst (IsIdle doubles t) (returns-injective r q (sym ended ∙ e)) idle)

  Reach-IsSound : {p q : Pipeline Double} → IsIdle doubles t p → Reach p q → IsSound q
  Reach-IsSound idle here = inl idle
  Reach-IsSound idle (next r s) = Step-IsSound s (Reach-IsSound idle r)

  -- If the engine of a running pipeline returns by itself, no later `start` returns, `stop` does
  -- nothing, and the destructor terminates the program.
  pub engine_returns_ends :
      {p q : Pipeline Double} (system : System) (x : Bool × Pipeline Double)
      → IsIdle doubles t p
      → Reach p q
      → q.running ≡ true
      → (start_rx doubles system (engine_returns q) ≢ returns x)
        × (stop_rx limit (engine_returns q) ≡ returns (engine_returns q))
        × (destroy_rx limit (engine_returns q) ≡ terminates)
  engine_returns_ends {q = q} system x first reach on = elim (Reach-IsSound first reach) [
    | inl idle ↦ cc (idle.not_running, on)
    | inr active ↦
        let dead = engine_returns-IsDead doubles t q active in
        let (stop, destroy) = dead_ends doubles t (engine_returns q) limit dead in
        (dead_start doubles t (engine_returns q) x system dead, stop, destroy)
  ]
