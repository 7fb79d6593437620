-- ===== src/Supervisor/Scale/Stops.antt =====
-- Which machines src/supervisor.rs stops.
use vmfleet.Prelude.{
  ℕ, ◌-◌, ◌≤◌, List, [], ◌∷◌, Bool, true, false, Option, some, none, ◌≡◌, ◌⊎◌, inl, inr, refl,
  arith, if◌then◌else◌, length, All, All-mono, leb, leb_iff, ◌==◌, Bool-cases,
}
use vmfleet.Prelude.Text.{Text}
use vmfleet.Prelude.Act.{Returns, Returns-proceed}
use vmfleet.World.{System, History, read_clock, now}
use vmfleet.Config.{Supervisor}
use vmfleet.Admission.{nanos}
use vmfleet.Github.{Runner}
use vmfleet.Supervisor.Scale.{
  Action, stopped, IdleSince, since, since_long, long_idle, stop_unit, stop_idle,
}
use vmfleet.Supervisor.Scale.Limits.{launched_slots, stopped_slots}

abbrev pub Among : Runner × ℕ → List (Runner × ℕ) → Type 0
Among c [] = ⊥
Among c (d ∷ ds) = (c ≡ d) ⊎ Among c ds

module _ (sys : System) (sup : Supervisor) (cfg_path exe : Text) (dry_run : Bool) where
  -- The slot is that of a candidate that had been idle for the timeout when the clock was read.
  pub record LongIdle (idle_since : IdleSince) (cs : List (Runner × ℕ)) (slot : ℕ) : Type 0 where
    pub runner : Runner
    pub began : ℕ
    pub before : History
    pub is_candidate : Among (runner, slot) cs
    pub idle_from : since runner.name idle_since ≡ some began
    pub timed_out : nanos sup.idle_timeout_seconds ≤ sys.on_clock (read_clock ∷ before) - began

  pub LongIdle-later :
      {idle_since : IdleSince} (c : Runner × ℕ) (cs : List (Runner × ℕ)) (slot : ℕ)
      → LongIdle idle_since cs slot
      → LongIdle idle_since (c ∷ cs) slot
  LongIdle-later c cs slot l = record {
    runner = l.runner;
    began = l.began;
    before = l.before;
    is_candidate = inr l.is_candidate;
    idle_from = l.idle_from;
    timed_out = l.timed_out;
  }

  -- Why a runner counts as idle for long.
  abbrev pub Reason : IdleSince → Runner → Bool → Type 0
  Reason idle_since r false = Unit
  Reason idle_since r true =
      (began : ℕ) × (before : History) × (since r.name idle_since ≡ some began)
      × (nanos sup.idle_timeout_seconds ≤ sys.on_clock (read_clock ∷ before) - began)

  Reason-if :
      (idle_since : IdleSince) (r : Runner) (long : Bool)
      → (long ≡ true → Reason idle_since r true)
      → Reason idle_since r long
  Reason-if idle_since r true f = f refl
  Reason-if idle_since r false f = tt

  since_long-Reason :
      (idle_since : IdleSince) (r : Runner) (o : Option ℕ) (h : History)
      → since r.name idle_since ≡ o
      → Returns (since_long sys sup cfg_path exe dry_run o h) (λ long _. Reason idle_since r long)
  unfolding since_long now
  since_long-Reason idle_since r none h e = tt
  since_long-Reason idle_since r (some t) h e =
      Reason-if idle_since r
        (leb (nanos sup.idle_timeout_seconds) (sys.on_clock (read_clock ∷ h) - t))
        (λ l. (t, h, e, (leb_iff _ _).0 l))

  pub long_idle-Reason :
      (idle_since : IdleSince) (r : Runner) (h : History)
      → Returns
          (long_idle sys sup cfg_path exe dry_run idle_since r h)
          (λ long _. Reason idle_since r long)
  unfolding long_idle
  long_idle-Reason idle_since r h = since_long-Reason idle_since r (since r.name idle_since) h refl

  -- What a row of stops leaves: no launch, no more stops than there are machines too many, and each
  -- stopped slot that of a candidate idle for long.
  pub record Stopped (idle_since : IdleSince) (excess : ℕ) (cs : List (Runner × ℕ))
      (actions : List Action) : Type 0 where
    pub none_launched : launched_slots actions ≡ []
    pub within : length (stopped_slots actions) ≤ excess
    pub all_idle : All (LongIdle idle_since cs) (stopped_slots actions)

  Stopped-cons :
      (idle_since : IdleSince) (excess : ℕ) (r : Runner) (slot : ℕ) (cs : List (Runner × ℕ))
      (long : Bool) (rest : List Action)
      → (excess == 0) ≡ false
      → Reason idle_since r long
      → Stopped idle_since (if long then excess - 1 else excess) cs rest
      → Stopped idle_since excess ((r, slot) ∷ cs) (if long then stopped slot ∷ rest else rest)
  Stopped-cons idle_since excess r slot cs true rest ne (began, before, e, l) s = record {
    none_launched = s.none_launched;
    within = ground (arith, s.within);
    all_idle = (
      record {
        runner = r;
        began = began;
        before = before;
        is_candidate = inl refl;
        idle_from = e;
        timed_out = l;
      },
      All-mono (LongIdle idle_since cs) (LongIdle idle_since ((r, slot) ∷ cs)) _
          (λ t l'. LongIdle-later (r, slot) cs t l') s.all_idle,
    );
  }
  Stopped-cons idle_since excess r slot cs false rest ne _ s = record {
    none_launched = s.none_launched;
    within = s.within;
    all_idle =
        All-mono (LongIdle idle_since cs) (LongIdle idle_since ((r, slot) ∷ cs)) _
          (λ t l'. LongIdle-later (r, slot) cs t l') s.all_idle;
  }

  stop_unit_total :
      (long : Bool) (slot : ℕ) (h : History)
      → Returns (stop_unit sys sup cfg_path exe dry_run long slot h) (λ _ _. Unit)
  unfolding stop_unit
  stop_unit_total long slot h = ground arith

  pub stop_idle-Stopped :
      (idle_since : IdleSince) (excess : ℕ) (cs : List (Runner × ℕ)) (h : History)
      → Returns
          (stop_idle sys sup cfg_path exe dry_run idle_since excess cs h)
          (λ actions _. Stopped idle_since excess cs actions)
  unfolding stop_idle
  stop_idle-Stopped idle_since excess [] h = record {
    none_launched = refl;
    within = omega arith;
    all_idle = tt;
  }
  stop_idle-Stopped idle_since excess ((r, slot) ∷ cs) h = elim (Bool-cases (excess == 0)) [
    | inl done ↦ rw done (record { none_launched = refl; within = omega arith; all_idle = tt })
    | inr more ↦ rw more (
        Returns-proceed (long_idle sys sup cfg_path exe dry_run idle_since r h) _
          (λ long _. Reason idle_since r long) _ (long_idle-Reason idle_since r h)
          (λ long h1 why.
            Returns-proceed (stop_unit sys sup cfg_path exe dry_run long slot h1) _ (λ _ _. Unit) _
              (stop_unit_total long slot h1)
              (λ _ h2 _.
                Returns-proceed
                  (stop_idle sys sup cfg_path exe dry_run idle_since
                    (if long then excess - 1 else excess) cs h2)
                  _ _ _ (stop_idle-Stopped idle_since (if long then excess - 1 else excess) cs h2)
                  (λ rest h3 s. Stopped-cons idle_since excess r slot cs long rest more why s))))
  ]
