-- ===== src/Worker/Lifecycle.antt =====
-- `lifecycle`, `cleanup` and `run` of src/worker.rs, without signals: the life of one machine, and
-- the clean-up that the guard does on every return.
pub mod Tracked
pub mod Cleanup
use vmfleet.Prelude.{
  ℕ, ◌+◌, ◌++◌, List, [], ◌∷◌, Bool, true, false, Option, some, none, Result, ok, err,
  if◌then◌else◌,
}
use vmfleet.Prelude.Text.{Text, codes}
use vmfleet.Prelude.Act.{Act, ◌>>=◌, ◌>>◌, pure, try_, fail}
use vmfleet.World.{
  System, CmdOut, Io, Failure, History, config_failed, exited, not_available, not_spawned, now,
  change, write_file, remove_file, kill_child, spawn_child, unlock, succeeded,
}
use vmfleet.Naming.{slot_vm_prefix}
use vmfleet.Config.{Config, Pool, Base, ConfigError, labels_csv, runner_url}
use vmfleet.Config.Validate.{base_for}
use vmfleet.Resources.{Floats}
use vmfleet.Admission.{nanos, acquire, settle}
use vmfleet.Github.{Client}
use vmfleet.Multipass.{
  available, vm_exists, clone_from, set_cpus, set_memory, start, exec, purge, multipass,
}
use vmfleet.Worker.Sweep.{deregister, sweep_leftovers}
use vmfleet.Worker.Health.{wait_cloud_init, wait_registration, health_monitor}

-- `created` and `run_child` of `Ctx`.
pub record Stage : Type 0 where
  pub created : Bool
  pub running : Bool

abbrev pub before_clone : Stage
before_clone = record { created = false; running = false }

-- The calls that change the stage.
abbrev pub Staged : Type 0 → Type 0
Staged A = Act (Stage × History) Failure A

abbrev pub staged : {A : Type 0} → Io A → Staged A
staged m (w, h) = let (r, h') = m h in (r, (w, h'))

abbrev pub mark_created : Staged (Unit {0})
mark_created (w, h) = (ok tt, (record w { created = true }, h))

-- The guard of the lock is dropped on every return.
abbrev pub with_lock : Text → Staged (Unit {0}) → Staged (Unit {0})
with_lock path m s = let (r, (w, h)) = m s in (r, (w, unlock path ∷ h))

module _ {F : Type 0} (fl : Floats F) (sys : System) (client : Client) (cfg : Config F)
    (pool : Pool) (pool_name : Text) (slot : ℕ) (vm state_file : Text) where
  kill_running : Bool → Io (Unit {0})
  kill_running false h = (ok tt, h)
  kill_running true h = (ok tt, kill_child ∷ h)

  purge_created : Bool → Io (Unit {0})
  purge_created false = pure tt
  purge_created true = try_ (purge sys vm) >> pure tt

  -- `cleanup`, for its first call; further ones return at once.
  unfoldable pub cleanup : Stage → Io (Unit {0})
  unfolding kill_running purge_created
  cleanup w = do
    kill_running w.running
    deregister sys client vm
    purge_created w.created
    change sys (remove_file state_file)
    pure tt

  -- `none` where there is no base, on which the program panics; the guard cleans up then, too.
  base_name : Option Base → Io Text
  base_name none = fail config_failed
  base_name (some b) = pure b.name

  -- The base's name, on a host where it can be cloned.
  check_host : Io Text
  unfolding base_name
  check_host = do
    up ← available sys
    base ← (if up then base_name (base_for cfg pool) else fail not_available)
    there ← vm_exists sys base
    if there then client.reachable else fail not_available
    pure base

  -- The registration token, where no JIT configuration is used.
  reg_token : Bool → Io (Option Text)
  reg_token true = pure none
  reg_token false = do t ← client.registration_token; pure (some t)

  unfoldable pub prepare : Io (Text × Option Text)
  unfolding check_host reg_token
  prepare = do
    base ← check_host
    sweep_leftovers sys client (slot_vm_prefix pool_name slot) vm state_file
    change sys (write_file state_file (vm ++ 10 ∷ []))
    token ← reg_token cfg.supervisor.use_jit
    pure (base, token)

  -- The start of the machine that was cloned.
  unfoldable pub boot : Io (Unit {0})
  boot = do
    set_cpus sys vm pool.cpus
    set_memory sys vm pool.memory
    start sys vm
    settle fl sys cfg.admission cfg.storage.vault_path

  -- What is done under the lock.
  unfoldable pub launch_vm : Text → Staged (Unit {0})
  unfolding boot
  launch_vm base = do staged (clone_from sys base vm); mark_created; staged boot

  unfoldable pub swap_script : Text → Text
  swap_script size =
      codes "set -euo pipefail; f=/swapfile; "
      ++ (codes "if swapon --show=NAME --noheadings | grep -qx \"$f\"; then exit 0; fi; "
          ++ (codes "sudo swapoff \"$f\" 2>/dev/null || true; sudo rm -f \"$f\"; "
              ++ (codes "sudo fallocate -l "
                  ++ (size
                      ++ (codes " \"$f\"; sudo chmod 600 \"$f\"; sudo mkswap \"$f\" >/dev/null; "
                          ++ (codes "sudo swapon \"$f\"; "
                              ++ codes
                                  "grep -qE '^/swapfile ' /etc/fstab || echo '/swapfile none swap sw 0 0' | sudo tee -a /etc/fstab >/dev/null"))))))

  setup_swap : Option Text → Io (Unit {0})
  setup_swap none = pure tt
  setup_swap (some size) =
      try_ (exec sys vm (swap_script size) cfg.worker.config_timeout_seconds) >> pure tt

  config_script : Text → Text → Text
  config_script url token =
      codes "set -euo pipefail; cd ~/actions-runner; ./config.sh --unattended "
      ++ (codes "--url '"
          ++ (url
              ++ (codes "' --token '"
                  ++ (token
                      ++ (codes "' --name '"
                          ++ (vm
                              ++ (codes "' --labels '"
                                  ++ (labels_csv pool ++ codes "' --ephemeral --replace"))))))))

  run_config : Text → Result ConfigError Text → Io (Unit {0})
  unfolding config_script
  run_config token (err e) = fail config_failed
  run_config token (ok url) = do
    o ← exec sys vm (config_script url token) cfg.worker.config_timeout_seconds
    if succeeded o then pure tt else fail (exited multipass o.status)

  configure : Option Text → Io (Unit {0})
  unfolding run_config
  configure none = pure tt
  configure (some token) = run_config token (runner_url cfg.github)

  run_command : Bool → Io Text
  run_command false = pure (codes "cd ~/actions-runner && ./run.sh")
  run_command true = do
    jit ← client.generate_jitconfig vm pool.labels
    pure (codes "cd ~/actions-runner && ./run.sh --jitconfig '" ++ (jit ++ b'\'' ∷ []))

  spawned : Bool → Stage → Stage
  spawned started w = record w { running = started }

  abbrev pub runner_args : Text → List Text
  runner_args cmd = codes "exec" ∷ vm ∷ codes "--" ∷ codes "bash" ∷ codes "-lc" ∷ cmd ∷ []

  spawn : Text → Staged (Unit {0})
  unfolding spawned
  spawn cmd (w, h) =
      let h' = spawn_child (runner_args cmd) ∷ h in
      (if sys.on_spawn h' then ok tt else err not_spawned, (spawned (sys.on_spawn h') w, h'))

  -- The times are those at which the loops begin; the rounds are for each loop. First the machine
  -- is made ready, until the command of its runner is known.
  unfoldable pub get_command : ℕ → Option Text → Io Text
  unfolding setup_swap configure run_command
  get_command rounds token = do
    t ← now sys
    wait_cloud_init sys rounds vm cfg.worker.cloud_init_timeout_seconds
        (t + nanos cfg.worker.cloud_init_timeout_seconds)
    setup_swap pool.swap
    configure token
    run_command cfg.supervisor.use_jit

  -- The child that was spawned is watched until the runner is done.
  unfoldable pub watch : ℕ → Io (Unit {0})
  watch rounds = do
    t ← now sys
    wait_registration sys client vm rounds cfg.worker.health_poll_seconds
        (t + nanos cfg.worker.registration_timeout_seconds)
    health_monitor sys client vm rounds cfg.worker.offline_grace_seconds
        cfg.worker.health_poll_seconds none

  unfoldable pub lifecycle : ℕ → Option Text → Text → Staged (Unit {0})
  unfolding prepare launch_vm get_command spawn watch
  lifecycle rounds dir lock = do
    ready ← staged prepare
    staged (acquire fl sys cfg.admission cfg.storage.vault_path rounds dir lock)
    with_lock lock (launch_vm ready.0)
    cmd ← staged (get_command rounds ready.1)
    spawn cmd
    staged (watch rounds)

  abbrev pub clean_up_after :
      Result Failure (Unit {0}) × (Stage × History) → Result Failure (Unit {0}) × History
  clean_up_after (r, (w, h)) = (r, (cleanup w h).1)

  -- `run`: the lifecycle, then the clean-up of the guard, whatever the result is.
  unfoldable pub work : ℕ → Option Text → Text → Io (Unit {0})
  unfolding lifecycle
  work rounds dir lock h = clean_up_after (lifecycle rounds dir lock (before_clone, h))
