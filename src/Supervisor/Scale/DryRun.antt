-- ===== src/Supervisor/Scale/DryRun.antt =====
-- What a dry run of src/supervisor.rs asks of the system.
use vmfleet.Prelude.{
  ℕ, zero, suc, List, [], ◌∷◌, Bool, true, false, Option, some, none, ok, ◌≡◌, inl, inr, refl, take,
  Bool-cases, ◌==◌, ◌-◌, if◌then◌else◌,
}
use vmfleet.Prelude.Text.{Text}
use vmfleet.Prelude.Sort.{sort}
use vmfleet.World.{
  System, History, Request, read_clock, Extends, unchanged, asked, Extends-proceed, now,
}
use vmfleet.Config.{Pool, Supervisor}
use vmfleet.Github.{Runner}
use vmfleet.Supervisor.Observe.{ℤ, pos, negsuc, sub_ℕ, wanted, present, free_slots, candidates}
use vmfleet.Supervisor.Scale.{
  Budget, IdleSince, since, since_long, long_idle, no_later, can_launch, launch_slots, scale_up,
  scale_down, stop_idle, stop_unit, attempt, spend, scale, reconcile_pool, reconcile_pools,
}

abbrev ReadsClock : Request → Type 0
ReadsClock r = r ≡ read_clock

module _ (sys : System) (sup : Supervisor) (cfg_path exe : Text) where
  launch_slots-quiet :
      (pool : Pool) (slots : List ℕ) (b : Budget) (h : History)
      → Extends ReadsClock h (launch_slots sys sup cfg_path exe true pool slots b h).1
  unfolding launch_slots attempt
  launch_slots-quiet pool [] b h = unchanged
  launch_slots-quiet pool (s ∷ ss) b h =
      Extends-proceed (launch_slots sys sup cfg_path exe true pool ss (spend (ok tt) b) h) _
        (launch_slots-quiet pool ss (spend (ok tt) b) h) (λ r h'. unchanged)

  since_long-quiet :
      (o : Option ℕ) (h : History)
      → Extends ReadsClock h (since_long sys sup cfg_path exe true o h).1
  unfolding since_long now
  since_long-quiet none h = unchanged
  since_long-quiet (some t) h = asked unchanged read_clock refl

  stop_unit-quiet :
      (long : Bool) (slot : ℕ) (h : History)
      → Extends ReadsClock h (stop_unit sys sup cfg_path exe true long slot h).1
  unfolding stop_unit
  stop_unit-quiet true slot h = unchanged
  stop_unit-quiet false slot h = unchanged

  stop_idle-quiet :
      (idle_since : IdleSince) (excess : ℕ) (cs : List (Runner × ℕ)) (h : History)
      → Extends ReadsClock h (stop_idle sys sup cfg_path exe true idle_since excess cs h).1
  unfolding stop_idle long_idle
  stop_idle-quiet idle_since excess [] h = unchanged
  stop_idle-quiet idle_since excess ((r, slot) ∷ cs) h = elim (Bool-cases (excess == 0)) [
    | inl e ↦ rw e unchanged
    | inr e ↦ rw e (
        Extends-proceed (since_long sys sup cfg_path exe true (since r.name idle_since) h) _
          (since_long-quiet (since r.name idle_since) h)
          (λ long h1.
            Extends-proceed (stop_unit sys sup cfg_path exe true long slot h1) _
              (stop_unit-quiet long slot h1)
              (λ _ h2.
                let excess' = if long then excess - 1 else excess in
                Extends-proceed (stop_idle sys sup cfg_path exe true idle_since excess' cs h2) _
                  (stop_idle-quiet idle_since excess' cs h2) (λ rest h3. unchanged))))
  ]

  module _ (runners : List Runner) (active_slots : List ℕ) (idle_since : IdleSince)
      (blocked : Bool) where
    scale-quiet :
        (pool : Pool) (deficit : ℤ) (b : Budget) (h : History)
        → Extends ReadsClock h
            (scale sys sup cfg_path exe true pool runners active_slots idle_since blocked deficit b
              h).1
    unfolding scale scale_up scale_down
    scale-quiet pool (pos zero) b h = unchanged
    scale-quiet pool (pos (suc n)) b h = elim (Bool-cases blocked) [
      | inl e ↦ rw e unchanged
      | inr e ↦ rw e (
          launch_slots-quiet pool
            (take (can_launch sys sup cfg_path exe true (suc n) b) (free_slots pool active_slots)) b
            h)
    ]
    scale-quiet pool (negsuc n) b h =
        let cs =
          sort (λ c d. no_later (since c.0.name idle_since) (since d.0.name idle_since))
            (candidates pool runners active_slots) in
        Extends-proceed (stop_idle sys sup cfg_path exe true idle_since (suc n) cs h) _
          (stop_idle-quiet idle_since (suc n) cs h) (λ actions h'. unchanged)

    -- In a dry run the loop over the pools, whatever it finds to do, asks the system for the time
    -- and for nothing else: no unit is started and none is stopped.
    pub reconcile_pools_dry :
        (queued : List (Text × ℕ)) (pools : List Pool) (b : Budget) (h : History)
        → Extends
            (λ r. r ≡ read_clock)
            h
            (reconcile_pools sys sup cfg_path exe true runners active_slots queued idle_since
              blocked pools b h).1
    unfolding reconcile_pools reconcile_pool
    reconcile_pools_dry queued [] b h = unchanged
    reconcile_pools_dry queued (p ∷ ps) b h =
        let d = sub_ℕ (wanted p runners queued) (present p runners active_slots) in
        Extends-proceed
          (reconcile_pool sys sup cfg_path exe true runners active_slots queued idle_since blocked p
            b h)
          _
          (Extends-proceed
            (scale sys sup cfg_path exe true p runners active_slots idle_since blocked d b h) _
            (scale-quiet p d b h) (λ done h'. unchanged))
          (λ first h1.
            Extends-proceed
              (reconcile_pools sys sup cfg_path exe true runners active_slots queued idle_since
                blocked ps first.1 h1)
              _ (reconcile_pools_dry queued ps first.1 h1) (λ rest h2. unchanged))
