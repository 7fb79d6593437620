-- ===== src/Supervisor/Scale/Limits.antt =====
-- How many machines a cycle of src/supervisor.rs launches, and how many of a pool it stops.
use vmfleet.Prelude.{
  ℕ, ◌+◌, ◌-◌, List, [], ◌∷◌, Bool, Result, ok, err, ◌≡◌, refl, arith, take, length, Sub, nothing,
  skip, keep,
}
use vmfleet.Prelude.Text.{Text}
use vmfleet.Prelude.Act.{Returns, Returns-proceed}
use vmfleet.World.{System, Failure, History}
use vmfleet.Config.{Pool, Supervisor}
use vmfleet.Supervisor.Observe.{free_slots}
use vmfleet.Supervisor.Scale.{
  Action, launched, stopped, Budget, attempt, launch_slots, can_launch, scale_up, spend,
  record_launch,
}

-- The slots that actions launch, and those that they stop.
abbrev pub launched_slots : List Action → List ℕ
launched_slots [] = []
launched_slots (launched s ∷ more) = s ∷ launched_slots more
launched_slots (stopped s ∷ more) = launched_slots more

abbrev pub stopped_slots : List Action → List ℕ
stopped_slots [] = []
stopped_slots (launched s ∷ more) = stopped_slots more
stopped_slots (stopped s ∷ more) = s ∷ stopped_slots more

-- What a row of launches leaves: it stops nothing, launches some of the slots in their order, and
-- counts each launch once.
pub record Spent (slots : List ℕ) (b : Budget) (actions : List Action) (b' : Budget) : Type 0 where
  pub chosen : Sub (launched_slots actions) slots
  pub none_stopped : stopped_slots actions ≡ []
  pub counted : b'.launched_this_cycle ≡ b.launched_this_cycle + length (launched_slots actions)
  pub paid : b'.headroom ≡ b.headroom - length (launched_slots actions)

Spent-cons :
    (slot : ℕ) (slots : List ℕ) (b b' : Budget) (actions : List Action)
    (r : Result Failure (Unit {0}))
    → Spent slots (spend r b) actions b'
    → Spent (slot ∷ slots) b (record_launch r slot actions) b'
Spent-cons slot slots b b' actions (ok _) s = record {
  chosen = keep s.chosen;
  none_stopped = s.none_stopped;
  counted = omega (arith, s.counted);
  paid = omega (arith, s.paid);
}
Spent-cons slot slots b b' actions (err e) s = record {
  chosen = skip s.chosen;
  none_stopped = s.none_stopped;
  counted = s.counted;
  paid = s.paid;
}

module _ (sys : System) (sup : Supervisor) (cfg_path exe : Text) (dry_run : Bool) where
  attempt_total :
      (pool : Pool) (slot : ℕ) (h : History)
      → Returns (attempt sys sup cfg_path exe dry_run pool slot h) (λ _ _. Unit)
  unfolding attempt
  attempt_total pool slot h = ground arith

  pub launch_slots-Spent :
      (pool : Pool) (slots : List ℕ) (b : Budget) (h : History)
      → Returns
          (launch_slots sys sup cfg_path exe dry_run pool slots b h)
          (λ r _. Spent slots b r.0 r.1)
  unfolding launch_slots
  launch_slots-Spent pool [] b h = record {
    chosen = nothing;
    none_stopped = refl;
    counted = omega arith;
    paid = omega arith;
  }
  launch_slots-Spent pool (slot ∷ more) b h =
      Returns-proceed (attempt sys sup cfg_path exe dry_run pool slot h) _ (λ _ _. Unit) _
        (attempt_total pool slot h)
        (λ r h1 _.
          Returns-proceed (launch_slots sys sup cfg_path exe dry_run pool more (spend r b) h1) _ _ _
            (launch_slots-Spent pool more (spend r b) h1)
            (λ res h2 s. Spent-cons slot more b res.1 res.0 r s))

  -- The launches for one pool are among its free slots and within what it may launch.
  pub scale_up-Spent :
      (pool : Pool) (active_slots : List ℕ) (deficit : ℕ) (b : Budget) (h : History)
      → Returns (scale_up sys sup cfg_path exe dry_run pool active_slots deficit b h) (λ r _.
        Spent
          (take (can_launch sys sup cfg_path exe dry_run deficit b) (free_slots pool active_slots))
          b
          r.0
          r.1)
  unfolding scale_up
  scale_up-Spent pool active_slots deficit b h = launch_slots-Spent pool _ b h
