-- ===== src/Supervisor/Scale.antt =====
-- The launches and the stops of src/supervisor.rs for one pool, and the loop over the pools.
pub mod Carried
pub mod DryRun
pub mod Enacted
pub mod Limits
pub mod Outcome
pub mod Slots
pub mod Stops
use vmfleet.Prelude.{
  ℕ, zero, suc, ◌+◌, ◌-◌, min, List, [], ◌∷◌, ◌++◌, map, Bool, true, false, not, ◌&&◌, Option, none,
  some, Result, ok, err, if◌then◌else◌, leb, ◌==◌, take, length,
}
use vmfleet.Prelude.Text.{Text, codes, text_eq}
use vmfleet.Prelude.Sort.{sort}
use vmfleet.Prelude.Decimal.{decimal}
use vmfleet.Prelude.Act.{◌>>=◌, ◌>>◌, pure, try_}
use vmfleet.World.{System, Io, Failure, now}
use vmfleet.Naming.{worker_unit}
use vmfleet.Config.{Pool, Supervisor}
use vmfleet.Admission.{nanos}
use vmfleet.Github.{Runner}
use vmfleet.Systemd.{run_transient}
use vmfleet.Systemd
use vmfleet.Supervisor.Observe.{
  ℤ, pos, negsuc, sub_ℕ, as_u32, idle, busy_count, active, pending, present, queued_max, wanted,
  free_slots, candidates,
}

-- The entries of `actions`: "launch:<slot>" and "stop:<slot>".
pub data Action : Type 0 where
  launched stopped : ℕ → Action

pub record PoolReport : Type 0 where
  pub name : Text
  pub idle : ℕ
  pub busy : ℕ
  pub queued : ℕ
  pub active_units : ℕ
  pub pending : ℕ
  pub present : ℕ
  pub desired : ℕ
  pub deficit : ℤ
  pub actions : List Action

-- The counters that all pools of a cycle share.
pub record Budget : Type 0 where
  pub launched_this_cycle : ℕ
  pub headroom : ℕ

-- Since when each idle runner has been idle.
abbrev pub IdleSince : Type 0
IdleSince = List (Text × ℕ)

unfoldable pub since : Text → IdleSince → Option ℕ
since name [] = none
since name ((k, t) ∷ more) = let rest = since name more in if text_eq k name then some t else rest

-- The order of the sort keys. A missing entry counts as now, which is not before any other.
unfoldable pub no_later : Option ℕ → Option ℕ → Bool
no_later none none = true
no_later none (some t) = false
no_later (some s) none = true
no_later (some s) (some t) = leb s t

-- What a launch that succeeded does to the counters and the actions; one that failed does nothing.
abbrev pub spend : Result Failure (Unit {0}) → Budget → Budget
spend (err e) b = b
spend (ok _) b = record {
  launched_this_cycle = b.launched_this_cycle + 1;
  headroom = b.headroom - 1;
}

abbrev pub record_launch : Result Failure (Unit {0}) → ℕ → List Action → List Action
record_launch (err e) slot actions = actions
record_launch (ok _) slot actions = launched slot ∷ actions

module _ (sys : System) (sup : Supervisor) (cfg_path exe : Text) (dry_run : Bool) where
  unfoldable pub launch : Pool → ℕ → Io (Unit {0})
  launch pool slot =
      run_transient sys (worker_unit slot) [] exe
        (codes "--config" ∷ cfg_path ∷ codes "worker" ∷ pool.name ∷ decimal slot ∷ [])

  -- A dry run takes the launch for done.
  unfoldable pub attempt : Pool → ℕ → Io (Result Failure (Unit {0}))
  attempt pool slot = if dry_run then pure (ok tt) else try_ (launch pool slot)

  -- The loop over the free slots. It returns the actions and the counters.
  unfoldable pub launch_slots : Pool → List ℕ → Budget → Io (List Action × Budget)
  unfolding attempt
  launch_slots pool [] b = pure ([], b)
  launch_slots pool (slot ∷ more) b = do
    r ← attempt pool slot
    rest ← launch_slots pool more (spend r b)
    pure (record_launch r slot rest.0, rest.1)

  -- How many launches the pool may try.
  unfoldable pub can_launch : ℕ → Budget → ℕ
  can_launch deficit b =
      min (min deficit (sup.max_launch_per_poll - b.launched_this_cycle)) b.headroom

  unfoldable pub scale_up : Pool → List ℕ → ℕ → Budget → Io (List Action × Budget)
  unfolding launch_slots can_launch
  scale_up pool active_slots deficit b =
      launch_slots pool (take (can_launch deficit b) (free_slots pool active_slots)) b

  -- `t.elapsed() >= idle_timeout`
  since_long : Option ℕ → Io Bool
  since_long none = pure false
  since_long (some t) = do t' ← now sys; pure (leb (nanos sup.idle_timeout_seconds) (t' - t))

  unfoldable pub long_idle : IdleSince → Runner → Io Bool
  unfolding since_long
  long_idle idle_since r = since_long (since r.name idle_since)

  stop_unit : Bool → ℕ → Io (Unit {0})
  stop_unit long slot =
      if long && not dry_run
      then (try_ (Systemd.stop sys (worker_unit slot)) >> pure tt)
      else pure tt

  -- The loop over the candidates, with the number of machines that are still too many.
  unfoldable pub stop_idle : IdleSince → ℕ → List (Runner × ℕ) → Io (List Action)
  unfolding stop_unit long_idle
  stop_idle idle_since excess [] = pure []
  stop_idle idle_since excess ((r, slot) ∷ more) =
      let go : Io (List Action) = do
        long ← long_idle idle_since r
        stop_unit long slot
        rest ← stop_idle idle_since (if long then excess - 1 else excess) more
        pure (if long then stopped slot ∷ rest else rest)
      in if excess == 0 then pure [] else go

  unfoldable pub scale_down : Pool → List Runner → List ℕ → IdleSince → ℕ → Io (List Action)
  unfolding stop_idle
  scale_down pool runners active_slots idle_since excess = stop_idle idle_since excess (
      sort (λ c d. no_later (since c.0.name idle_since) (since d.0.name idle_since))
        (candidates pool runners active_slots))

  abbrev with_budget : Budget → Io (List Action) → Io (List Action × Budget)
  with_budget b m = do actions ← m; pure (actions, b)

  -- The `if deficit > 0 && blocked.is_none()` with its other branches.
  unfoldable pub scale :
      Pool → List Runner → List ℕ → IdleSince → Bool → ℤ → Budget → Io (List Action × Budget)
  unfolding scale_up scale_down
  scale pool runners active_slots idle_since blocked (pos zero) b = pure ([], b)
  scale pool runners active_slots idle_since true (pos (suc n)) b = pure ([], b)
  scale pool runners active_slots idle_since false (pos (suc n)) b =
      scale_up pool active_slots (suc n) b
  scale pool runners active_slots idle_since blocked (negsuc n) b =
      with_budget b (scale_down pool runners active_slots idle_since (suc n))

  -- The body of the loop over the pools.
  unfoldable pub reconcile_pool :
      List Runner
      → List ℕ
      → List (Text × ℕ)
      → IdleSince
      → Bool
      → Pool
      → Budget
      → Io (PoolReport × Budget)
  unfolding scale
  reconcile_pool runners active_slots queued idle_since blocked pool b = do
    let want = wanted pool runners queued
    let here = present pool runners active_slots
    done ← scale pool runners active_slots idle_since blocked (sub_ℕ want here) b
    pure (
      record {
        name = pool.name;
        idle = as_u32 (length (idle pool runners));
        busy = busy_count pool runners;
        queued = queued_max pool.labels queued;
        active_units = as_u32 (length (active pool active_slots));
        pending = pending pool runners active_slots;
        present = here;
        desired = want;
        deficit = sub_ℕ want here;
        actions = done.0;
      },
      done.1,
    )

  unfoldable pub reconcile_pools :
      List Runner
      → List ℕ
      → List (Text × ℕ)
      → IdleSince
      → Bool
      → List Pool
      → Budget
      → Io (List PoolReport × Budget)
  unfolding reconcile_pool
  reconcile_pools runners active_slots queued idle_since blocked [] b = pure ([], b)
  reconcile_pools runners active_slots queued idle_since blocked (p ∷ ps) b = do
    first ← reconcile_pool runners active_slots queued idle_since blocked p b
    rest ← reconcile_pools runners active_slots queued idle_since blocked ps first.1
    pure (first.0 ∷ rest.0, rest.1)
