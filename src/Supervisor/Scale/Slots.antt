-- ===== src/Supervisor/Scale/Slots.antt =====
-- The loops of src/supervisor.rs over the slots of one pool: each action of theirs is carried out, and
-- nothing else is asked.
use vmfleet.Prelude.{
  ℕ, ◌-◌, ◌==◌, List, [], ◌∷◌, Bool, true, false, ◌≡◌, refl, inl, inr, Bool-cases, Option-cases,
  if◌then◌else◌, All,
}
use vmfleet.Prelude.Text.{Text}
use vmfleet.Prelude.Act.{Returns, Returns-proceed, Returns-log}
use vmfleet.World.{
  System, History, Request, read_clock, now, run, checked, succeeded, Extends, unchanged, asked,
  Extends-trans,
}
use vmfleet.World.Steps.{executed}
use vmfleet.Config.{Pool, Supervisor}
use vmfleet.Github.{Runner}
use vmfleet.Systemd.{systemctl, transient_args, reset_failed, run_transient}
use vmfleet.Systemd
use vmfleet.Supervisor.Observe.Free.{IsFree}
use vmfleet.Supervisor.Scale.{
  Budget, IdleSince, spend, launch, attempt, launch_slots, since, since_long, long_idle, stop_unit,
  stop_idle,
}
use vmfleet.Supervisor.Scale.Stops.{LongIdle, LongIdle-later, Reason, long_idle-Reason}
use vmfleet.Supervisor.Scale.Outcome.{by_idle_time}
use vmfleet.Supervisor.Scale.Enacted.{
  Of, reset_command, launch_command, any_request, Enacts, Enacts-earlier, no_actions, Started,
  Enacts-launch, Ended, Enacts-stop, Acts, reads, launches, resets, stops, forgets,
}

module _ (sys : System) (sup : Supervisor) (cfg_path exe : Text) (runners : List Runner)
    (active_slots : List ℕ) (idle_since : IdleSince) (blocked : Bool) (pools : List Pool) where
  abbrev Acting : Bool → Request → Type 0
  Acting dry = Acts sys sup cfg_path exe runners active_slots idle_since blocked pools dry

  attempt-Started :
      (dry : Bool) (pool : Pool) (slot : ℕ)
      → blocked ≡ false
      → Of pool pools
      → IsFree pool active_slots slot
      → (h : History)
      → Returns
          (attempt sys sup cfg_path exe dry pool slot h)
          (λ r h1. Started sys sup cfg_path exe dry pool slot r h h1 × Extends (Acting dry) h h1)
  unfolding attempt launch run_transient reset_failed run checked
  attempt-Started true pool slot clear here free h = (unchanged, unchanged)
  attempt-Started false pool slot clear here free h =
      let before = reset_command slot ∷ h in
      let log : Extends (Acting false) h (launch_command sys sup cfg_path exe pool slot ∷ before) =
        asked (asked unchanged _ (resets pool slot refl clear here free)) _
          (launches pool slot refl clear here free) in
      elim (Option-cases
        (sys.on_command (launch_command sys sup cfg_path exe pool slot ∷ before))) [
          | inl none_ ↦ rw none_ (any_request sys sup cfg_path exe log, log)
          | inr (o, some_) ↦ rw some_ (elim (Bool-cases (succeeded o)) [
            | inl done ↦
                rw done
                  ((before, asked unchanged _ tt, executed _ _ _ o some_ done, unchanged), log)
            | inr failed ↦ rw failed (any_request sys sup cfg_path exe log, log)
          ])
        ]

  pub launch_slots-Enacts :
      (dry : Bool) (pool : Pool) (slots : List ℕ) (b : Budget)
      → blocked ≡ false
      → Of pool pools
      → All (IsFree pool active_slots) slots
      → (h : History)
      → Returns
          (launch_slots sys sup cfg_path exe dry pool slots b h)
          (λ r h'. Enacts sys sup cfg_path exe dry pool r.0 h h' × Extends (Acting dry) h h')
  unfolding launch_slots
  launch_slots-Enacts dry pool [] b clear here free h =
      (no_actions sys sup cfg_path exe dry pool h, unchanged)
  launch_slots-Enacts dry pool (slot ∷ more) b clear here (f, free) h =
      Returns-proceed (attempt sys sup cfg_path exe dry pool slot h) _ _ _
        (attempt-Started dry pool slot clear here f h)
        (λ r h1 (s, log).
          Returns-proceed (launch_slots sys sup cfg_path exe dry pool more (spend r b) h1) _ _ _
            (launch_slots-Enacts dry pool more (spend r b) clear here free h1)
            (λ rest h2 (e, log'). (
              Enacts-launch sys sup cfg_path exe dry pool slot r rest.0 h h1 h2 s e,
              Extends-trans log log',
            )))

  stop_unit-Ended :
      (dry long : Bool) (pool : Pool) (slot : ℕ)
      → Of pool pools
      → (long ≡ true
          → LongIdle sys sup cfg_path exe dry idle_since
              (by_idle_time idle_since pool runners active_slots)
              slot)
      → (h : History)
      → Returns
          (stop_unit sys sup cfg_path exe dry long slot h)
          (λ _ h'. Ended sys sup cfg_path exe dry long slot h h' × Extends (Acting dry) h h')
  unfolding stop_unit Systemd.stop run
  stop_unit-Ended true true pool slot here why h = (unchanged, unchanged)
  stop_unit-Ended true false pool slot here why h = (unchanged, unchanged)
  stop_unit-Ended false false pool slot here why h = (unchanged, unchanged)
  stop_unit-Ended false true pool slot here why h = (
    asked unchanged _ tt,
    asked (asked unchanged _ (stops pool slot refl here (why refl))) _
        (forgets pool slot refl here (why refl)),
  )

  long_idle-quiet :
      (dry : Bool) (r : Runner) (h : History)
      → Extends (Acting dry) h (long_idle sys sup cfg_path exe dry idle_since r h).1
  unfolding long_idle since_long now
  long_idle-quiet dry r h = elim (Option-cases (since r.name idle_since)) [
    | inl none_ ↦ rw none_ unchanged
    | inr (t, some_) ↦ rw some_ (asked unchanged read_clock reads)
  ]

  -- The reason for a stop, for a candidate at the head of those that are left.
  idle-Reason :
      (dry : Bool) (r : Runner) (slot : ℕ) (cs : List (Runner × ℕ)) (long : Bool)
      → Reason sys sup cfg_path exe dry idle_since r long
      → long ≡ true
      → LongIdle sys sup cfg_path exe dry idle_since ((r, slot) ∷ cs) slot
  idle-Reason dry r slot cs false why e = cc
  idle-Reason dry r slot cs true (began, before, from, out) e = record {
    runner = r;
    began = began;
    before = before;
    is_candidate = inl refl;
    idle_from = from;
    timed_out = out;
  }

  pub stop_idle-Enacts :
      (dry : Bool) (pool : Pool) (cs : List (Runner × ℕ)) (excess : ℕ)
      → Of pool pools
      → ((slot : ℕ)
          → LongIdle sys sup cfg_path exe dry idle_since cs slot
          → LongIdle sys sup cfg_path exe dry idle_since
              (by_idle_time idle_since pool runners active_slots)
              slot)
      → (h : History)
      → Returns (stop_idle sys sup cfg_path exe dry idle_since excess cs h) (λ actions h'.
        Enacts sys sup cfg_path exe dry pool actions h h' × Extends (Acting dry) h h')
  unfolding stop_idle
  stop_idle-Enacts dry pool [] excess here among h =
      (no_actions sys sup cfg_path exe dry pool h, unchanged)
  stop_idle-Enacts dry pool ((r, slot) ∷ cs) excess here among h = elim (Bool-cases (excess == 0)) [
    | inl done ↦ rw done (no_actions sys sup cfg_path exe dry pool h, unchanged)
    | inr more ↦ rw more (
        Returns-proceed (long_idle sys sup cfg_path exe dry idle_since r h) _ _ _
          (Returns-log (long_idle sys sup cfg_path exe dry idle_since r h) _
            (Extends (Acting dry) h) (long_idle-Reason sys sup cfg_path exe dry idle_since r h)
            (long_idle-quiet dry r h))
          (λ long h1 (why, log1).
            let left = if long then excess - 1 else excess in
            Returns-proceed (stop_unit sys sup cfg_path exe dry long slot h1) _ _ _
              (stop_unit-Ended dry long pool slot here
                (λ e. among slot (idle-Reason dry r slot cs long why e)) h1)
              (λ _ h2 (s, log2).
                Returns-proceed (stop_idle sys sup cfg_path exe dry idle_since left cs h2) _ _ _
                  (stop_idle-Enacts dry pool cs left here
                    (λ t l. among t (LongIdle-later sys sup cfg_path exe dry (r, slot) cs t l)) h2)
                  (λ rest h3 (e, log3). (
                    Enacts-earlier sys sup cfg_path exe dry pool _ h h1 h3
                        (any_request sys sup cfg_path exe log1)
                        (Enacts-stop sys sup cfg_path exe dry long pool slot rest h1 h2 h3 s e),
                    Extends-trans log1 (Extends-trans log2 log3),
                  )))))
  ]
