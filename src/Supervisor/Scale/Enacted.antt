-- ===== src/Supervisor/Scale/Enacted.antt =====
-- What the loops of src/supervisor.rs over the pools and their slots ask of the system.
use vmfleet.Prelude.{ℕ, List, [], ◌∷◌, Bool, true, false, some, Result, ok, err, ◌≡◌, if◌then◌else◌}
use vmfleet.Prelude.Text.{Text, codes}
use vmfleet.Prelude.Decimal.{decimal}
use vmfleet.World.{
  System, History, Request, Failure, command, read_clock, Extends, unchanged, Extends-trans,
  Extends-mono,
}
use vmfleet.World.Steps.{Worked}
use vmfleet.Naming.{worker_unit}
use vmfleet.Config.{Pool, Supervisor}
use vmfleet.Github.{Runner}
use vmfleet.Systemd.{systemctl, transient_args}
use vmfleet.Supervisor.Observe.Free.{IsFree}
use vmfleet.Supervisor.Scale.{Action, launched, stopped, IdleSince, record_launch}
use vmfleet.Supervisor.Scale.Stops.{LongIdle}
use vmfleet.Supervisor.Scale.Outcome.{by_idle_time}

pub data Of : Pool → List Pool → Type 0 where
  first : {p : Pool} {ps : List Pool} → Of p (p ∷ ps)
  later : {p q : Pool} {ps : List Pool} → Of p ps → Of p (q ∷ ps)

abbrev pub stop_command : ℕ → Request
stop_command slot =
    command systemctl (codes "--user" ∷ codes "stop" ∷ worker_unit slot ∷ []) (some 75)

abbrev pub reset_command : ℕ → Request
reset_command slot =
    command systemctl (codes "--user" ∷ codes "reset-failed" ∷ worker_unit slot ∷ []) (some 10)

module _ (sys : System) (sup : Supervisor) (cfg_path exe : Text) where
  -- The unit that is started runs the worker of the pool's slot.
  abbrev pub launch_command : Pool → ℕ → Request
  launch_command pool slot =
      command (codes "systemd-run")
        (transient_args (worker_unit slot) [] exe
          (codes "--config" ∷ cfg_path ∷ codes "worker" ∷ pool.name ∷ decimal slot ∷ []))
        (some 30)

  abbrev Grows : History → History → Type 0
  Grows h h' = Extends (λ _. Unit {0}) h h'

  pub any_request : {P : Request → Type 0} {h h' : History} → Extends P h h' → Grows h h'
  any_request e = Extends-mono (λ _ _. tt) e

  -- Between the two histories the actions were carried out in their order: a launch by a command
  -- that ended with status 0, a stop by the command for it. A dry run carries out none.
  abbrev pub Enacts : Bool → Pool → List Action → History → History → Type 0
  Enacts true pool actions h h' = Extends (λ _. Unit {0}) h h'
  Enacts false pool [] h h' = Extends (λ _. Unit {0}) h h'
  Enacts false pool (launched s ∷ more) h h' =
      (before : History) × Extends (λ _. Unit {0}) h before
      × Worked sys before (launch_command pool s)
      × Enacts false pool more (launch_command pool s ∷ before) h'
  Enacts false pool (stopped s ∷ more) h h' =
      (before : History) × Extends (λ _. Unit {0}) h before
      × Enacts false pool more (stop_command s ∷ before) h'

  pub Enacts-earlier :
      (dry : Bool) (pool : Pool) (actions : List Action) (h0 h h' : History)
      → Grows h0 h
      → Enacts dry pool actions h h'
      → Enacts dry pool actions h0 h'
  Enacts-earlier true pool actions h0 h h' g e = Extends-trans g e
  Enacts-earlier false pool [] h0 h h' g e = Extends-trans g e
  Enacts-earlier false pool (launched s ∷ more) h0 h h' g (before, g', w, e) =
      (before, Extends-trans g g', w, e)
  Enacts-earlier false pool (stopped s ∷ more) h0 h h' g (before, g', e) =
      (before, Extends-trans g g', e)

  pub no_actions : (dry : Bool) (pool : Pool) (h : History) → Enacts dry pool [] h h
  no_actions true pool h = unchanged
  no_actions false pool h = unchanged

  -- What an attempt to launch leaves.
  abbrev pub Started : Bool → Pool → ℕ → Result Failure (Unit {0}) → History → History → Type 0
  Started true pool slot r h h' = Grows h h'
  Started false pool slot (err e) h h' = Grows h h'
  Started false pool slot (ok _) h h' =
      (before : History) × Grows h before
      × Worked sys before (launch_command pool slot)
      × Grows (launch_command pool slot ∷ before) h'

  pub Enacts-launch :
      (dry : Bool) (pool : Pool) (slot : ℕ) (r : Result Failure (Unit {0})) (more : List Action)
      (h h1 h' : History)
      → Started dry pool slot r h h1
      → Enacts dry pool more h1 h'
      → Enacts dry pool (record_launch r slot more) h h'
  Enacts-launch true pool slot r more h h1 h' s e = Extends-trans s e
  Enacts-launch false pool slot (err f) more h h1 h' s e =
      Enacts-earlier false pool more h h1 h' s e
  Enacts-launch false pool slot (ok _) more h h1 h' (before, g, w, g') e =
      (before, g, w, Enacts-earlier false pool more _ h1 h' g' e)

  -- What the loop's body leaves for a candidate.
  abbrev pub Ended : Bool → Bool → ℕ → History → History → Type 0
  Ended false true slot h h' = Grows (stop_command slot ∷ h) h'
  Ended false false slot h h' = Grows h h'
  Ended true long slot h h' = Grows h h'

  pub Enacts-stop :
      (dry long : Bool) (pool : Pool) (slot : ℕ) (more : List Action) (h h1 h' : History)
      → Ended dry long slot h h1
      → Enacts dry pool more h1 h'
      → Enacts dry pool (if long then stopped slot ∷ more else more) h h'
  Enacts-stop true long pool slot more h h1 h' s e = Extends-trans s e
  Enacts-stop false false pool slot more h h1 h' s e = Enacts-earlier false pool more h h1 h' s e
  Enacts-stop false true pool slot more h h1 h' s e =
      (h, unchanged, Enacts-earlier false pool more _ h1 h' s e)

  module _ (runners : List Runner) (active_slots : List ℕ) (idle_since : IdleSince) (blocked : Bool)
      (pools : List Pool) where
    -- The requests of the loops: the clock, the launch of a free slot of a pool while the host is
    -- not blocked, and the stop of the unit of a candidate that has been idle for long; none of the
    -- latter in a dry run.
    pub data Acts (dry : Bool) : Request → Type 0 where
      reads : Acts dry read_clock
      launches :
          (pool : Pool) (slot : ℕ)
          → dry ≡ false
          → blocked ≡ false
          → Of pool pools
          → IsFree pool active_slots slot
          → Acts dry (launch_command pool slot)
      resets :
          (pool : Pool) (slot : ℕ)
          → dry ≡ false
          → blocked ≡ false
          → Of pool pools
          → IsFree pool active_slots slot
          → Acts dry (reset_command slot)
      stops :
          (pool : Pool) (slot : ℕ)
          → dry ≡ false
          → Of pool pools
          → LongIdle sys sup cfg_path exe dry idle_since
              (by_idle_time idle_since pool runners active_slots)
              slot
          → Acts dry (stop_command slot)
      forgets :
          (pool : Pool) (slot : ℕ)
          → dry ≡ false
          → Of pool pools
          → LongIdle sys sup cfg_path exe dry idle_since
              (by_idle_time idle_since pool runners active_slots)
              slot
          → Acts dry (reset_command slot)
