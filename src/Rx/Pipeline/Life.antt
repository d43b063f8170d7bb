-- ===== src/Rx/Pipeline/Life.antt =====
-- The states that `RxPipeline` of src/rx/RxPipeline.cpp goes through.
use site_sim.Base.{
  ℕ, Bool-cases, ◌≡◌, inl, inr, refl, sym, ap, ap₂, ◌∙◌, Option, none, some, Bool, true, false,
  if◌then◌else◌,
}
use site_sim.Tx.Control.{Doubles, SiteConfig, rx_freq_hz}
use site_sim.Rx.Capture.{
  Table, System, Capture, Ending, returns, waits, terminates, no_capture, start_stderr_capture,
  stop_stderr_capture,
}
use site_sim.Rx.Capture.Restore.{capture}
use site_sim.Rx.Pipeline.{
  DsdOpts, Pipeline, Engine, cleared, no_engine, engine_runs, engine_gone, is_joinable,
  receive_opts, launch, release, destroy_members, configure_rx, start_rx, stop_rx, destroy_rx,
}
use site_sim.Rx.Pipeline.Captured.{Gives, Captures, start-Captures, stop-Captures}

abbrev pub has_opts : Option DsdOpts → Bool
has_opts none = false
has_opts (some opts) = true

-- With options the hooks are cleared.
cleared_hooks :
    (opts : Option DsdOpts) (hooks : Bool) → has_opts opts ≡ true → cleared opts hooks ≡ false
cleared_hooks none hooks h = cc h
cleared_hooks (some opts) hooks h = refl

module _ {Double : Type 0} (doubles : Doubles Double) (t : Table) where
  -- No thread, no options, no state and no capture are held, dsd-neo's hooks are clear, and the descriptors
  -- are as they were.
  pub record IsIdle (p : Pipeline Double) : Type 0 where
    pub not_running : p.running ≡ false
    pub no_thread : p.thread ≡ no_engine
    pub no_options : p.opts ≡ none
    pub no_state : p.state ≡ false
    pub no_hooks : p.hooks ≡ false
    pub no_capture_now : p.capture ≡ no_capture
    pub same_table : p.table ≡ t

  -- The engine runs, with its options, its state and its hooks.
  pub record IsActive (p : Pipeline Double) : Type 0 where
    pub is_running : p.running ≡ true
    pub runs : p.thread ≡ engine_runs
    pub has_options : has_opts p.opts ≡ true
    pub has_state : p.state ≡ true
    pub hooked : p.hooks ≡ true
    pub captures : Captures t p.table p.capture

  -- The tests of `start`, `stop` and the members' destructors, on a given value.
  abbrev pub start_if : Pipeline Double → System → Bool → Ending (Bool × Pipeline Double)
  start_if p system running =
      if running
      then returns (true, p)
      else launch doubles p p.thread (start_stderr_capture system p.table p.capture)

  abbrev pub stop_if : Pipeline Double → ℕ → Bool → Ending (Pipeline Double)
  stop_if p limit running =
      if running then release p (stop_stderr_capture limit p.table p.capture) else returns p

  abbrev pub members_if : Engine → Capture → Ending (Unit {0})
  members_if thread c =
      if is_joinable thread then terminates else if c.stderr_thread then terminates else returns tt

  pub start-IsActive :
      (p : Pipeline Double) (system : System)
      → IsIdle p
      → Gives t system
      → (q : Pipeline Double) × (start_rx doubles system p ≡ returns (true, q)) × IsActive q
  unfolding start_rx
  start-IsActive p system idle gives =
      let (table, capture, e, captures) = start-Captures t system gives in
      let q = record p {
        opts = some (receive_opts (doubles.to_uint32 (rx_freq_hz doubles p.cfg)));
        state = true;
        thread = engine_runs;
        running = true;
        exitflag = false;
        hooks = true;
        capture = capture;
        table = table;
      } in
      let begun = ap₂ (start_stderr_capture system) idle.same_table idle.no_capture_now ∙ e in
      let rest = λ (th : Engine) (s : Ending (Table × Capture)). launch doubles p th s in
      (
        q,
        ap (start_if p system) idle.not_running ∙ ap₂ rest idle.no_thread begun,
        record {
          is_running = refl;
          runs = refl;
          has_options = refl;
          has_state = refl;
          hooked = refl;
          captures = captures;
        },
      )

  pub stop-IsIdle :
      (p : Pipeline Double) (limit : ℕ)
      → IsActive p
      → (q : Pipeline Double) × (stop_rx limit p ≡ returns q) × IsIdle q
  unfolding stop_rx
  stop-IsIdle p limit active =
      let ended = stop-Captures t p.table p.capture limit active.captures in
      let q = record p {
        opts = none;
        state = false;
        thread = no_engine;
        running = false;
        exitflag = true;
        hooks = cleared p.opts p.hooks;
        capture = no_capture;
        table = t;
      } in
      (
        q,
        ap (stop_if p limit) active.is_running ∙ ap (release p) ended,
        record {
          not_running = refl;
          no_thread = refl;
          no_options = refl;
          no_state = refl;
          no_hooks = cleared_hooks p.opts p.hooks active.has_options;
          no_capture_now = refl;
          same_table = refl;
        },
      )

  pub start_running :
      (p : Pipeline Double) (system : System)
      → p.running ≡ true
      → start_rx doubles system p ≡ returns (true, p)
  unfolding start_rx
  start_running p system h = ap (start_if p system) h

  pub stop_stopped :
      (p : Pipeline Double) (limit : ℕ) → p.running ≡ false → stop_rx limit p ≡ returns p
  unfolding stop_rx
  stop_stopped p limit h = ap (stop_if p limit) h

  pub destroy-IsIdle :
      (p : Pipeline Double) (limit : ℕ) → IsIdle p → destroy_rx limit p ≡ returns tt
  unfolding destroy_rx
  destroy-IsIdle p limit idle =
      ap destroy_members (stop_stopped p limit idle.not_running)
      ∙ ap₂ members_if idle.no_thread idle.no_capture_now

  pub destroy-IsActive :
      (p : Pipeline Double) (limit : ℕ) → IsActive p → destroy_rx limit p ≡ returns tt
  unfolding destroy_rx
  destroy-IsActive p limit active =
      let (q, ended, idle) = stop-IsIdle p limit active in
      ap destroy_members ended ∙ ap₂ members_if idle.no_thread idle.no_capture_now

  pub configure-IsIdle :
      (cfg : SiteConfig Double) (p : Pipeline Double) → IsIdle p → IsIdle (configure_rx cfg p)
  unfolding configure_rx
  configure-IsIdle cfg p idle = record {
    not_running = idle.not_running;
    no_thread = idle.no_thread;
    no_options = idle.no_options;
    no_state = idle.no_state;
    no_hooks = idle.no_hooks;
    no_capture_now = idle.no_capture_now;
    same_table = idle.same_table;
  }

  pub configure-IsActive :
      (cfg : SiteConfig Double) (p : Pipeline Double) → IsActive p → IsActive (configure_rx cfg p)
  unfolding configure_rx
  configure-IsActive cfg p active = record {
    is_running = active.is_running;
    runs = active.runs;
    has_options = active.has_options;
    has_state = active.has_state;
    hooked = active.hooked;
    captures = active.captures;
  }

  abbrev cfg_of : SiteConfig Double → Ending (Bool × Pipeline Double) → SiteConfig Double
  cfg_of cfg waits = cfg
  cfg_of cfg terminates = cfg
  cfg_of cfg (returns (started, p)) = p.cfg

  launch-cfg_of :
      (p : Pipeline Double) (thread : Engine) (s : Ending (Table × Capture))
      → cfg_of p.cfg (launch doubles p thread s) ≡ p.cfg
  launch-cfg_of p thread waits = refl
  launch-cfg_of p thread terminates = refl
  launch-cfg_of p no_engine (returns r) = refl
  launch-cfg_of p engine_runs (returns r) = refl
  launch-cfg_of p engine_gone (returns r) = refl

  start_rx-cfg_of :
      (p : Pipeline Double) (system : System) → cfg_of p.cfg (start_rx doubles system p) ≡ p.cfg
  unfolding start_rx
  start_rx-cfg_of p system = elim (Bool-cases p.running) [
    | inl e ↦ ap (λ b. cfg_of p.cfg (start_if p system b)) e
    | inr e ↦
        ap (λ b. cfg_of p.cfg (start_if p system b)) e
        ∙ launch-cfg_of p p.thread (start_stderr_capture system p.table p.capture)
  ]

  -- A start keeps the configuration.
  pub start_cfg :
      (p q : Pipeline Double) (system : System) (started : Bool)
      → start_rx doubles system p ≡ returns (started, q)
      → q.cfg ≡ p.cfg
  start_cfg p q system started e = sym (ap (cfg_of p.cfg) e) ∙ start_rx-cfg_of p system
