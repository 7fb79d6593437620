-- ===== src/Worker/Lifecycle/Tracked.antt =====
-- That the flags of a worker of src/worker.rs tell what its lifecycle has done.
use vmfleet.Prelude.{ℕ, ◌∷◌, true, false, Option, Result, ok, err, ◌≡◌, refl, inl, inr, Bool-cases}
use vmfleet.Prelude.Text.{Text}
use vmfleet.Prelude.Act.{proceed, ◌>>=◌, ◌>>◌}
use vmfleet.World.{System, Io, History, Failure, spawn_child, unlock}
use vmfleet.Config.{Config, Pool}
use vmfleet.Resources.{Floats}
use vmfleet.Admission.{acquire}
use vmfleet.Github.{Client}
use vmfleet.Multipass.{clone_from}
use vmfleet.Worker.Lifecycle.{
  Stage, before_clone, Staged, staged, mark_created, prepare, boot, launch_vm, get_command,
  runner_args, spawn, spawned, watch, lifecycle,
}

-- The stages after the clone, and after the spawn.
abbrev pub has_vm : Stage
has_vm = record { created = true; running = false }

abbrev pub has_child : Stage
has_child = record { created = true; running = true }

-- What follows a call that leaves the stage alone.
staged-cases :
    {A B : Type 0} (m : Io A) (w : Stage) (h : History) (f : A → Staged B) (Q : Stage → Type 0)
    → ((e : Failure) (h' : History) → ◌≡◌ {A = Result Failure A × History} (m h) (err e, h') → Q w)
    → ((a : A) (h' : History)
        → ◌≡◌ {A = Result Failure A × History} (m h) (ok a, h')
        → Q (f a (w, h')).1.0)
    → (x : Result Failure A × History) → m h ≡ x
    → Q (proceed (x.0, (w, x.1)) f).1.0
staged-cases m w h f Q failed went (ok a, h') e = went a h' e
staged-cases m w h f Q failed went (err failure, h') e = failed failure h' e

module _ {F : Type 0} (fl : Floats F) (sys : System) (client : Client) (cfg : Config F)
    (pool : Pool) (pool_name : Text) (slot : ℕ) (vm state_file : Text) where
  module _ (rounds : ℕ) (dir : Option Text) (lock : Text) (h : History) where
    abbrev prepared : History → Result Failure (Text × Option Text) × History
    prepared h' = prepare fl sys client cfg pool pool_name slot vm state_file h'

    abbrev acquired : History → Result Failure (Unit {0}) × History
    acquired h' = acquire fl sys cfg.admission cfg.storage.vault_path rounds dir lock h'

    abbrev booted : History → Result Failure (Unit {0}) × History
    booted h' = boot fl sys client cfg pool pool_name slot vm state_file h'

    abbrev commanded : Option Text → History → Result Failure Text × History
    commanded token h' =
        get_command fl sys client cfg pool pool_name slot vm state_file rounds token h'

    -- From the first history on, the clone was made.
    pub record IsCloned (ready : Text × Option Text) (h3 : History) : Type 0 where
      pub h1 : History
      pub h2 : History
      pub host_ready : prepared h ≡ (ok ready, h1)
      pub lock_held : acquired h1 ≡ (ok tt, h2)
      pub clone_done : clone_from sys ready.0 vm h2 ≡ (ok tt, h3)

    -- The machine was cloned and started, and the lock given back.
    pub record IsReady (ready : Text × Option Text) (cmd : Text) (h5 : History) : Type 0 where
      pub h3 : History
      pub h4 : History
      pub is_cloned : IsCloned ready h3
      pub is_booted : booted h3 ≡ (ok tt, h4)
      pub is_commanded : commanded ready.1 (unlock lock ∷ h4) ≡ (ok cmd, h5)

    -- The stage that a lifecycle leaves, with the call at which it came to an end: no machine where
    -- the clone was not made or failed, a machine where it was, and a child where its spawn was
    -- answered with success.
    pub data Tracks : Stage → Type 0 where
      unprepared : (e : Failure) (h1 : History) → prepared h ≡ (err e, h1) → Tracks before_clone
      unlocked :
          (ready : Text × Option Text) (h1 h2 : History) (e : Failure)
          → prepared h ≡ (ok ready, h1)
          → acquired h1 ≡ (err e, h2)
          → Tracks before_clone
      uncloned :
          (ready : Text × Option Text) (h1 h2 h3 : History) (e : Failure)
          → prepared h ≡ (ok ready, h1)
          → acquired h1 ≡ (ok tt, h2)
          → clone_from sys ready.0 vm h2 ≡ (err e, h3)
          → Tracks before_clone
      unbooted :
          (ready : Text × Option Text) (h3 h4 : History) (e : Failure)
          → IsCloned ready h3
          → booted h3 ≡ (err e, h4)
          → Tracks has_vm
      uncommanded :
          (ready : Text × Option Text) (h3 h4 h5 : History) (e : Failure)
          → IsCloned ready h3
          → booted h3 ≡ (ok tt, h4)
          → commanded ready.1 (unlock lock ∷ h4) ≡ (err e, h5)
          → Tracks has_vm
      unspawned :
          (ready : Text × Option Text) (cmd : Text) (h5 : History)
          → IsReady ready cmd h5
          → sys.on_spawn (
              spawn_child (runner_args fl sys client cfg pool pool_name slot vm state_file cmd)
              ∷ h5)
            ≡ false
          → Tracks has_vm
      child_spawned :
          (ready : Text × Option Text) (cmd : Text) (h5 : History)
          → IsReady ready cmd h5
          → sys.on_spawn (
              spawn_child (runner_args fl sys client cfg pool pool_name slot vm state_file cmd)
              ∷ h5)
            ≡ true
          → Tracks has_child

    spawn-Tracks :
        (ready : Text × Option Text) (cmd : Text) (h5 : History)
        → IsReady ready cmd h5
        → Tracks
            (proceed
              (spawn fl sys client cfg pool pool_name slot vm state_file cmd (has_vm, h5))
              (λ _. staged (watch fl sys client cfg pool pool_name slot vm state_file rounds))).1.0
    unfolding spawn spawned
    spawn-Tracks ready cmd h5 is_ready =
        elim (Bool-cases (
          sys.on_spawn (
            spawn_child (runner_args fl sys client cfg pool pool_name slot vm state_file cmd)
            ∷ h5))) [
              | inl started ↦ rw started (child_spawned ready cmd h5 is_ready started)
              | inr refused ↦ rw refused (unspawned ready cmd h5 is_ready refused)
            ]

    -- What follows the launch.
    abbrev rest : Text × Option Text → Unit {0} → Staged (Unit {0})
    rest ready _ = do
      cmd ← staged (get_command fl sys client cfg pool pool_name slot vm state_file rounds ready.1)
      spawn fl sys client cfg pool pool_name slot vm state_file cmd
      staged (watch fl sys client cfg pool pool_name slot vm state_file rounds)

    abbrev unlocking :
        Result Failure (Unit {0}) × (Stage × History)
        → Result Failure (Unit {0}) × (Stage × History)
    unlocking (r, (w, h')) = (r, (w, unlock lock ∷ h'))

    boot-Tracks :
        (ready : Text × Option Text) (h3 : History)
        → IsCloned ready h3
        → (y : Result Failure (Unit {0}) × History) → booted h3 ≡ y
        → Tracks (proceed (unlocking (y.0, (has_vm, y.1))) (rest ready)).1.0
    boot-Tracks ready h3 cloned (err failure, h4) e = unbooted ready h3 h4 failure cloned e
    boot-Tracks ready h3 cloned (ok _, h4) e =
        staged-cases
          (get_command fl sys client cfg pool pool_name slot vm state_file rounds ready.1) has_vm
          (unlock lock ∷ h4) _ Tracks
          (λ failure h5 e'. uncommanded ready h3 h4 h5 failure cloned e e')
          (λ cmd h5 e'.
            spawn-Tracks ready cmd h5
              (record { h3 = h3; h4 = h4; is_cloned = cloned; is_booted = e; is_commanded = e' }))
          _ refl

    clone-Tracks :
        (ready : Text × Option Text) (h1 h2 : History)
        → prepared h ≡ (ok ready, h1)
        → acquired h1 ≡ (ok tt, h2)
        → (x : Result Failure (Unit {0}) × History) → clone_from sys ready.0 vm h2 ≡ x
        → Tracks
            (proceed
              (unlocking (
                proceed
                  (x.0, (before_clone, x.1))
                  (λ _.
                    mark_created
                    >> staged (boot fl sys client cfg pool pool_name slot vm state_file))))
              (rest ready)).1.0
    clone-Tracks ready h1 h2 e1 e2 (err failure, h3) e = uncloned ready h1 h2 h3 failure e1 e2 e
    clone-Tracks ready h1 h2 e1 e2 (ok _, h3) e =
        boot-Tracks ready h3
          (record { h1 = h1; h2 = h2; host_ready = e1; lock_held = e2; clone_done = e }) _ refl

    pub lifecycle-Tracks :
        Tracks
          (lifecycle fl sys client cfg pool pool_name slot vm state_file rounds dir lock
            (before_clone, h)).1.0
    unfolding lifecycle launch_vm
    lifecycle-Tracks =
        staged-cases (prepare fl sys client cfg pool pool_name slot vm state_file) before_clone h _
          Tracks (λ failure h1 e. unprepared failure h1 e)
          (λ ready h1 e1.
            staged-cases (acquire fl sys cfg.admission cfg.storage.vault_path rounds dir lock)
              before_clone h1 _ Tracks (λ failure h2 e. unlocked ready h1 h2 failure e1 e)
              (λ _ h2 e2. clone-Tracks ready h1 h2 e1 e2 _ refl) _ refl)
          _ refl
