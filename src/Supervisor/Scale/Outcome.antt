-- ===== src/Supervisor/Scale/Outcome.antt =====
-- What a cycle of src/supervisor.rs does to its pools.
use vmfleet.Prelude.{
  ℕ, zero, suc, ◌+◌, ◌-◌, ◌≤◌, min, List, [], ◌∷◌, Bool, true, false, ◌≡◌, ◌⊎◌, inl, inr, refl,
  arith, take, length, length-take-le, All, All-Sub, All-take, length-Sub, AllZip, end, both,
}
use vmfleet.Prelude.Text.{Text}
use vmfleet.Prelude.Sort.{sort}
use vmfleet.Prelude.Act.{Returns, Returns-proceed, Returns-mono}
use vmfleet.World.{System, History}
use vmfleet.Config.{Pool, Supervisor}
use vmfleet.Github.{Runner}
use vmfleet.Supervisor.Observe.{ℤ, pos, negsuc, sub_ℕ, wanted, present, free_slots, candidates}
use vmfleet.Supervisor.Observe.Free.{IsFree, free_slots-IsFree}
use vmfleet.Supervisor.Scale.{
  Action, Budget, PoolReport, IdleSince, since, no_later, can_launch, scale_up, scale_down,
  stop_idle, scale, reconcile_pool, reconcile_pools,
}
use vmfleet.Supervisor.Scale.Limits.{launched_slots, stopped_slots, Spent, scale_up-Spent}
use vmfleet.Supervisor.Scale.Stops.{LongIdle, Stopped, stop_idle-Stopped}

-- The machines that a deficit lacks, and those that are too many.
abbrev pub lacking : ℤ → ℕ
lacking (pos n) = n
lacking (negsuc n) = 0

abbrev pub too_many : ℤ → ℕ
too_many (pos n) = 0
too_many (negsuc n) = suc n

lacking-sub_ℕ : (a b : ℕ) → lacking (sub_ℕ a b) ≡ a - b
lacking-sub_ℕ a b = ground arith

too_many-sub_ℕ : (a b : ℕ) → too_many (sub_ℕ a b) ≡ b - a
too_many-sub_ℕ a b = ground arith

-- The candidates of a pool in the order in which they are stopped.
abbrev pub by_idle_time : IdleSince → Pool → List Runner → List ℕ → List (Runner × ℕ)
by_idle_time idle_since pool runners active_slots =
    sort (λ c d. no_later (since c.0.name idle_since) (since d.0.name idle_since))
      (candidates pool runners active_slots)

module _ (sys : System) (sup : Supervisor) (cfg_path exe : Text) (dry_run : Bool) where
  module _ (runners : List Runner) (active_slots : List ℕ) (idle_since : IdleSince) where
    -- What the actions for a pool with a deficit keep to.
    pub record IsMeasured (blocked : Bool) (pool : Pool) (deficit : ℤ) (actions : List Action)
        : Type 0 where
      pub launches_free : All (IsFree pool active_slots) (launched_slots actions)
      pub launches_needed : length (launched_slots actions) ≤ lacking deficit
      pub no_launch_blocked : (blocked ≡ false) ⊎ (launched_slots actions ≡ [])
      pub stops_needed : length (stopped_slots actions) ≤ too_many deficit
      pub stops_idle :
          All
            (LongIdle sys sup cfg_path exe dry_run idle_since
              (by_idle_time idle_since pool runners active_slots))
            (stopped_slots actions)

    -- What they do to the counters.
    pub record IsPaid (b : Budget) (n : ℕ) (b' : Budget) : Type 0 where
      pub within_poll : n ≤ sup.max_launch_per_poll - b.launched_this_cycle
      pub within_headroom : n ≤ b.headroom
      pub counted : b'.launched_this_cycle ≡ b.launched_this_cycle + n
      pub paid : b'.headroom ≡ b.headroom - n

    idle_hands : (blocked : Bool) (pool : Pool) (deficit : ℤ) → IsMeasured blocked pool deficit []
    idle_hands blocked pool deficit = record {
      launches_free = tt;
      launches_needed = omega arith;
      no_launch_blocked = inr refl;
      stops_needed = omega arith;
      stops_idle = tt;
    }

    free_hands : (b : Budget) → IsPaid b 0 b
    free_hands b = omega arith

    Spent-IsMeasured :
        (pool : Pool) (n : ℕ) (b : Budget) (actions : List Action) (b' : Budget)
        → Spent
            (take (can_launch sys sup cfg_path exe dry_run n b) (free_slots pool active_slots))
            b
            actions
            b'
        → IsMeasured false pool (pos n) actions × IsPaid b (length (launched_slots actions)) b'
    unfolding can_launch
    Spent-IsMeasured pool n b actions b' s =
        let can = min (min n (sup.max_launch_per_poll - b.launched_this_cycle)) b.headroom in
        let few : length (launched_slots actions) ≤ can =
          omega
            (arith, length-Sub s.chosen, length-take-le {0} can (free_slots pool active_slots)) in
        (
          record {
            launches_free =
                All-Sub (IsFree pool active_slots) s.chosen
                  (All-take (IsFree pool active_slots) can _ (free_slots-IsFree pool active_slots));
            launches_needed = omega arith;
            no_launch_blocked = inl refl;
            stops_needed = rw s.none_stopped (omega arith);
            stops_idle = rw s.none_stopped tt;
          },
          record {
            within_poll = omega arith;
            within_headroom = omega arith;
            counted = s.counted;
            paid = s.paid;
          },
        )

    Stopped-IsMeasured :
        (blocked : Bool) (pool : Pool) (n : ℕ) (b : Budget) (actions : List Action)
        → Stopped sys sup cfg_path exe dry_run idle_since
            (suc n)
            (by_idle_time idle_since pool runners active_slots)
            actions
        → IsMeasured blocked pool (negsuc n) actions × IsPaid b (length (launched_slots actions)) b
    Stopped-IsMeasured blocked pool n b actions s = (
      record {
        launches_free = rw s.none_launched tt;
        launches_needed = rw s.none_launched (omega arith);
        no_launch_blocked = inr s.none_launched;
        stops_needed = s.within;
        stops_idle = s.all_idle;
      },
      rw s.none_launched (free_hands b),
    )

    pub scale-IsMeasured :
        (blocked : Bool) (pool : Pool) (deficit : ℤ) (b : Budget) (h : History)
        → Returns
            (scale sys sup cfg_path exe dry_run pool runners active_slots idle_since blocked deficit
              b h)
            (λ r _.
              IsMeasured blocked pool deficit r.0 × IsPaid b (length (launched_slots r.0)) r.1)
    unfolding scale scale_down
    scale-IsMeasured blocked pool (pos zero) b h =
        (idle_hands blocked pool (pos zero), free_hands b)
    scale-IsMeasured true pool (pos (suc n)) b h =
        (idle_hands true pool (pos (suc n)), free_hands b)
    scale-IsMeasured false pool (pos (suc n)) b h =
        Returns-mono (scale_up sys sup cfg_path exe dry_run pool active_slots (suc n) b h) _ _
          (scale_up-Spent sys sup cfg_path exe dry_run pool active_slots (suc n) b h)
          (λ r h' s. Spent-IsMeasured pool (suc n) b r.0 r.1 s)
    scale-IsMeasured blocked pool (negsuc n) b h =
        Returns-proceed
          (stop_idle sys sup cfg_path exe dry_run idle_since (suc n)
            (by_idle_time idle_since pool runners active_slots) h)
          _ _ _
          (stop_idle-Stopped sys sup cfg_path exe dry_run idle_since (suc n)
            (by_idle_time idle_since pool runners active_slots) h)
          (λ actions h' s. Stopped-IsMeasured blocked pool n b actions s)

    -- What a report says of its pool.
    pub record IsFaithful (blocked : Bool) (queued : List (Text × ℕ)) (pool : Pool) (r : PoolReport)
        : Type 0 where
      pub named : r.name ≡ pool.name
      pub wants : r.desired ≡ wanted pool runners queued
      pub has : r.present ≡ present pool runners active_slots
      pub lacks : lacking r.deficit ≡ r.desired - r.present
      pub exceeds : too_many r.deficit ≡ r.present - r.desired
      pub measured : IsMeasured blocked pool r.deficit r.actions

    pub reconcile_pool-IsFaithful :
        (blocked : Bool) (queued : List (Text × ℕ)) (pool : Pool) (b : Budget) (h : History)
        → Returns
            (reconcile_pool sys sup cfg_path exe dry_run runners active_slots queued idle_since
              blocked pool b h)
            (λ r _.
              IsFaithful blocked queued pool r.0
              × IsPaid b (length (launched_slots r.0.actions)) r.1)
    unfolding reconcile_pool
    reconcile_pool-IsFaithful blocked queued pool b h =
        let d = sub_ℕ (wanted pool runners queued) (present pool runners active_slots) in
        Returns-proceed
          (scale sys sup cfg_path exe dry_run pool runners active_slots idle_since blocked d b h) _
          _ _ (scale-IsMeasured blocked pool d b h)
          (λ r h' m. (
            record {
              named = refl;
              wants = refl;
              has = refl;
              lacks = lacking-sub_ℕ _ _;
              exceeds = too_many-sub_ℕ _ _;
              measured = m.0;
            },
            m.1,
          ))

    -- The launches that the reports of a cycle name.
    abbrev pub all_launches : List PoolReport → ℕ
    all_launches [] = 0
    all_launches (r ∷ rs) = length (launched_slots r.actions) + all_launches rs

    -- The loop over the pools always returns. It makes one report for each pool, which tells the
    -- numbers desired and present, and no pool gets more launches than it lacks machines, a launch
    -- of a slot that is not its own or is active, a launch while the host is blocked, more stops
    -- than it has machines too many, or a stop of a machine that has not been idle for the
    -- timeout. All pools together get at most the launches of one poll and the headroom.
    pub reconcile_pools-IsFaithful :
        (blocked : Bool) (queued : List (Text × ℕ)) (pools : List Pool) (b : Budget) (h : History)
        → Returns
            (reconcile_pools sys sup cfg_path exe dry_run runners active_slots queued idle_since
              blocked pools b h)
            (λ r _. AllZip (IsFaithful blocked queued) pools r.0 × IsPaid b (all_launches r.0) r.1)
    unfolding reconcile_pools
    reconcile_pools-IsFaithful blocked queued [] b h = (end, free_hands b)
    reconcile_pools-IsFaithful blocked queued (p ∷ ps) b h =
        Returns-proceed
          (reconcile_pool sys sup cfg_path exe dry_run runners active_slots queued idle_since
            blocked p b h)
          _ _ _ (reconcile_pool-IsFaithful blocked queued p b h)
          (λ first h1 f.
            Returns-proceed
              (reconcile_pools sys sup cfg_path exe dry_run runners active_slots queued idle_since
                blocked ps first.1 h1)
              _ _ _ (reconcile_pools-IsFaithful blocked queued ps first.1 h1)
              (λ rest h2 g. (both f.0 g.0, omega (arith, f.1, g.1))))
