-- ===== src/Supervisor/Start.antt =====
-- `run` of src/supervisor.rs: the lock that keeps a second supervisor away, and the start of the
-- loop. The lock is held until the process ends.
use vmfleet.Prelude.{
  ℕ, List, ◌∷◌, Bool, true, false, Option, some, none, Result, ok, err, ◌≡◌, refl, ◌⊎◌, inl, inr,
  Bool-cases,
}
use vmfleet.Prelude.Text.{Text, codes}
use vmfleet.Prelude.Act.{◌>>=◌, ◌>>◌, pure, fail}
use vmfleet.World.{
  System, Io, Failure, History, Request, LockReply, locked, would_block, lock_error,
  already_running, config_failed, io_failed, change, make_dir, open_file, try_lock, Extends,
  unchanged, asked,
}
use vmfleet.Paths.{join, state_dir}
use vmfleet.Config.{Config, ConfigError, GitHub}
use vmfleet.Resources.{Floats}
use vmfleet.Github.{Client}
use vmfleet.Commands.Setup.{must}
use vmfleet.Commands.Uninstall.{config_token}
use vmfleet.Supervisor.Update.{fresh_state}
use vmfleet.Supervisor.Report.{Report}
use vmfleet.Supervisor.Cycle.{run_rounds}

module _ {F : Type 0} (fl : Floats F) (sys : System) (env : Text → Option Text)
    (connect : GitHub → Text → Result ConfigError Client) (to_json : Report F → Option Text)
    (version : Text) (cfg : Config F) (cfg_path : Text) (once : Bool) (rounds : ℕ) where
  abbrev pub singleton_path : Text
  singleton_path = join (state_dir env) (codes "supervisor.lock")

  got_lock : LockReply → Io (Unit {0})
  got_lock locked = pure tt
  got_lock would_block = fail already_running
  got_lock lock_error = fail already_running

  lock_once : Io (Unit {0})
  unfolding got_lock
  lock_once h = let h' = try_lock singleton_path ∷ h in got_lock (sys.on_lock h') h'

  unfoldable pub acquire_singleton : Io (Unit {0})
  unfolding lock_once must
  acquire_singleton = do
    made ← change sys (make_dir (state_dir env))
    must made
    opened ← change sys (open_file singleton_path)
    must opened
    lock_once

  loop_as : Bool → Client → Option Text → Io (List (Report F))
  loop_as dry_run client none = fail io_failed
  loop_as dry_run client (some exe) =
      run_rounds fl sys env to_json version cfg cfg_path exe client dry_run once rounds fresh_state

  serve_as : Bool → Option Text → Result ConfigError Client → Io (List (Report F))
  unfolding loop_as
  serve_as dry_run exe (err e) = fail config_failed
  serve_as dry_run exe (ok client) = loop_as dry_run client exe

  with_token : Bool → Option Text → Result ConfigError Text → Io (List (Report F))
  unfolding serve_as
  with_token dry_run exe (err e) = fail config_failed
  with_token dry_run exe (ok t) = serve_as dry_run exe (connect cfg.github t)

  -- What follows the lock, for a number of rounds.
  unfoldable pub serve : Bool → Option Text → Io (List (Report F))
  unfolding with_token
  serve dry_run exe = do t ← config_token sys env (λ _. none) connect cfg; with_token dry_run exe t

  guard : Bool → Io (Unit {0})
  unfolding acquire_singleton
  guard true = pure tt
  guard false = acquire_singleton

  -- The path of the running program is given.
  unfoldable pub run : Bool → Option Text → Io (List (Report F))
  unfolding guard serve
  run dry_run exe = guard dry_run >> serve dry_run exe

  -- The requests for the lock.
  pub data Tries : Request → Type 0 where
    makes : Tries (make_dir (state_dir env))
    opens : Tries (open_file singleton_path)
    tries : Tries (try_lock singleton_path)

  abbrev pub tried : History → History
  tried h = try_lock singleton_path ∷ open_file singleton_path ∷ make_dir (state_dir env) ∷ h

  -- The lock was granted, or the attempt failed and asked for nothing else.
  abbrev pub Guards : {A : Type 0} → History → (Result Failure A × History) → Type 0 → Type 0
  Guards h x Held =
      ((sys.on_lock (tried h) ≡ locked) × Held)
      ⊎ ((e : Failure) × (h' : History) × (x ≡ (err e, h')) × Extends Tries h h')

  abbrev opened_log :
      (h : History) → Extends Tries h (open_file singleton_path ∷ make_dir (state_dir env) ∷ h)
  opened_log h = asked (asked unchanged _ makes) _ opens

  got_lock-Guards :
      (h : History) (r : LockReply)
      → sys.on_lock (tried h) ≡ r
      → Guards h (got_lock r (tried h)) (got_lock r (tried h) ≡ (ok tt, tried h))
  unfolding got_lock
  got_lock-Guards h locked e = inl (e, refl)
  got_lock-Guards h would_block e = inr (already_running, _, refl, asked (opened_log h) _ tries)
  got_lock-Guards h lock_error e = inr (already_running, _, refl, asked (opened_log h) _ tries)

  acquire_singleton-Guards :
      (h : History) → Guards h (acquire_singleton h) (acquire_singleton h ≡ (ok tt, tried h))
  unfolding acquire_singleton change must lock_once
  acquire_singleton-Guards h = elim (Bool-cases (sys.on_write (make_dir (state_dir env) ∷ h))) [
    | inr failed ↦ rw failed (inr (io_failed, _, refl, asked unchanged _ makes))
    | inl made ↦
        rw made
          (elim (Bool-cases
            (sys.on_write (open_file singleton_path ∷ make_dir (state_dir env) ∷ h))) [
              | inr failed ↦ rw failed (inr (io_failed, _, refl, opened_log h))
              | inl opened ↦ rw opened (got_lock-Guards h _ refl)
            ])
  ]

  -- A supervisor that is not dry serves only where the lock was granted to it, right after the lock;
  -- else the run fails, and it asked for no more than the lock's directory and file and the lock.
  pub run-Guards :
      (exe : Option Text) (h : History)
      → Guards h (run false exe h) (run false exe h ≡ serve false exe (tried h))
  unfolding run guard
  run-Guards exe h = elim (acquire_singleton-Guards h) [
    | inl (granted, e) ↦ inl (granted, rw e refl)
    | inr (failure, h', e, log) ↦ inr (failure, h', rw e refl, log)
  ]
