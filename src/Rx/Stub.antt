-- ===== src/Rx/Stub.antt =====
-- The receiver of src/rx/RxPipeline.cpp for builds without dsd-neo.
use site_sim.Base.{
  ℕ, suc, ◌≡◌, refl, ap, ◌∙◌, List, [], ◌∷◌, ◌++◌, replicate, Bool, true, false, if◌then◌else◌,
}
use site_sim.Tx.Control.{SiteConfig}

-- The line that `start` logs.
pub data StubLine : Type 0 where
  rx_unavailable : StubLine

pub record StubPipeline (Double : Type 0) : Type 0 where
  pub cfg : SiteConfig Double
  pub running : Bool

pub data StubCall (Double : Type 0) : Type 0 where
  configures : SiteConfig Double → StubCall Double
  starts : StubCall Double
  stops : StubCall Double

module _ {Double : Type 0} where
  pub stub_configure : SiteConfig Double → StubPipeline Double → StubPipeline Double
  stub_configure cfg p = record p { cfg = cfg }

  -- What is returned, and what is logged if there is a callback.
  pub stub_start : Bool → StubPipeline Double → Bool × List StubLine
  stub_start has_log p =
      if p.running then (true, []) else (false, (if has_log then rx_unavailable ∷ [] else []))

  pub stub_stop : StubPipeline Double → StubPipeline Double
  stub_stop p = record p { running = false }

  -- What the calls of `start` return, and the lines, of calls in an order.
  pub stub_run :
      Bool
      → List (StubCall Double)
      → StubPipeline Double
      → List Bool × List StubLine × StubPipeline Double
  stub_run has_log [] p = ([], [], p)
  stub_run has_log (configures cfg ∷ calls) p = stub_run has_log calls (stub_configure cfg p)
  stub_run has_log (starts ∷ calls) p =
      let (started, lines) = stub_start has_log p in
      let (more, later, q) = stub_run has_log calls p in (started ∷ more, lines ++ later, q)
  stub_run has_log (stops ∷ calls) p = stub_run has_log calls (stub_stop p)

  abbrev pub count_starts : List (StubCall Double) → ℕ
  count_starts [] = 0
  count_starts (configures cfg ∷ calls) = count_starts calls
  count_starts (starts ∷ calls) = suc (count_starts calls)
  count_starts (stops ∷ calls) = count_starts calls

  stub_start_stopped :
      (p : StubPipeline Double)
      → p.running ≡ false
      → stub_start true p ≡ (false, rx_unavailable ∷ [])
  unfolding stub_start
  stub_start_stopped p off = ap (λ b. if b then (true, []) else (false, rx_unavailable ∷ [])) off

  -- However it is configured, started and stopped, the stub never runs: each `start` fails and says so once.
  pub stub_run_fails :
      (calls : List (StubCall Double)) (p : StubPipeline Double)
      → p.running ≡ false
      → ((stub_run true calls p).0 ≡ replicate (count_starts calls) false)
        × ((stub_run true calls p).1 ≡ replicate (count_starts calls) rx_unavailable)
        × ((stub_run true calls p).2.running ≡ false)
  unfolding stub_run stub_configure stub_stop
  stub_run_fails [] p off = (refl, refl, off)
  stub_run_fails (configures cfg ∷ calls) p off = stub_run_fails calls (stub_configure cfg p) off
  stub_run_fails (stops ∷ calls) p off = stub_run_fails calls (stub_stop p) refl
  stub_run_fails (starts ∷ calls) p off =
      let (failed, lines, still) = stub_run_fails calls p off in
      let one = stub_start_stopped p off in
      (
        ap (λ x. x.0 ∷ (stub_run true calls p).0) one ∙ ap (λ t. false ∷ t) failed,
        ap (λ x. x.1 ++ (stub_run true calls p).1) one ∙ ap (λ t. rx_unavailable ∷ t) lines,
        still,
      )
