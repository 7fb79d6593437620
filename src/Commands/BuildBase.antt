-- ===== src/Commands/BuildBase.antt =====
-- `build_base` and `build_one_base` of src/commands.rs: the machines that the workers clone.
pub mod Built
use vmfleet.Prelude.{
  ℕ, zero, suc, ◌++◌, List, [], ◌∷◌, Bool, true, false, Option, some, none, Result, ok, err,
  if◌then◌else◌,
}
use vmfleet.Prelude.Text.{Text, codes, starts_with}
use vmfleet.Prelude.Decimal.{decimal}
use vmfleet.Prelude.Act.{◌>>=◌, ◌>>◌, pure, try_, fail}
use vmfleet.World.{
  System, Io, Failure, CmdOut, config_failed, bad_provision, not_available, exists, read_text,
  succeeded,
}
use vmfleet.Paths.{join}
use vmfleet.Config.{Base, Config}
use vmfleet.Config.Validate.{LoadError, load}
use vmfleet.Multipass.{vm_exists, purge, launch, exec, transfer, stop, list}

unfoldable pub remote_script : ℕ → Text
remote_script i = codes "/tmp/vmfleet-provision-" ++ (decimal i ++ codes ".sh")

-- What runs a script in the machine.
unfoldable pub provision_command : Text → ℕ → Text
provision_command version i =
    codes "chmod +x "
    ++ (remote_script i
        ++ (codes " && RUNNER_VERSION='"
            ++ (version ++ (codes "' sudo -E bash " ++ remote_script i))))

-- `join` keeps an absolute path.
unfoldable pub local_script : Text → Text → Text
local_script base_dir script =
    if starts_with (codes "/") script then script else join base_dir script

module _ (sys : System) where
  make_room : Text → Bool → Bool → Io (Unit {0})
  make_room name force false = pure tt
  make_room name false true = fail not_available
  make_room name true true = purge sys name

  -- An existing machine is an error, or is purged where a rebuild is forced.
  unfoldable pub clear_name : Text → Bool → Io (Unit {0})
  unfolding make_room
  clear_name name force = vm_exists sys name >>= make_room name force

  must_succeed : CmdOut → Io (Unit {0})
  must_succeed o = if succeeded o then pure tt else fail bad_provision

  provision_there : Base → ℕ → Text → Bool → Io (Unit {0})
  unfolding must_succeed
  provision_there base i local false = fail bad_provision
  provision_there base i local true = do
    transfer sys local base.name (remote_script i)
    o ← exec sys base.name (provision_command base.runner_version i) 1800
    must_succeed o

  -- The scripts from the one with number `i` on.
  unfoldable pub provision_all : Base → Text → ℕ → List Text → Io (Unit {0})
  unfolding provision_there
  provision_all base base_dir i [] = pure tt
  provision_all base base_dir i (script ∷ scripts) = do
    there ← exists sys (local_script base_dir script)
    provision_there base i (local_script base_dir script) there
    provision_all base base_dir (suc i) scripts

  -- The listing at the end only makes a warning.
  unfoldable pub build_one_base : Base → Text → Bool → Io (Unit {0})
  unfolding clear_name provision_all
  build_one_base base base_dir force = do
    clear_name base.name force
    launch sys base.image base.name base.cpus base.memory base.disk
    try_ (exec sys base.name (codes "cloud-init status --wait") 300)
    provision_all base base_dir 0 base.setup_scripts
    try_ (stop sys base.name)
    try_ (list sys)
    pure tt

  unfoldable pub build_bases : List Base → Text → Bool → Io (Unit {0})
  unfolding build_one_base
  build_bases [] base_dir force = pure tt
  build_bases (base ∷ bases) base_dir force =
      build_one_base base base_dir force >> build_bases bases base_dir force

  module _ {F : Type 0} (env : Text → Option Text) (parse : Text → Option (Config F))
      (parent : Text → Option Text) where
    or_here : Option Text → Text
    or_here none = codes "."
    or_here (some dir) = dir

    build_loaded : Text → Bool → Result LoadError (Config F) → Io (Unit {0})
    unfolding build_bases or_here
    build_loaded cfg_path force (err e) = fail config_failed
    build_loaded cfg_path force (ok cfg) = build_bases cfg.bases (or_here (parent cfg_path)) force

    unfoldable pub build_base : Text → Bool → Io (Unit {0})
    unfolding build_loaded
    build_base cfg_path force = do
      text ← read_text sys cfg_path
      build_loaded cfg_path force (load env (λ _. text) parse cfg_path)
