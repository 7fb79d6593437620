-- ===== src/Commands/Uninstall.antt =====
-- `uninstall` of src/commands.rs: it stops the fleet, deregisters its runners, purges its machines
-- and, with `--purge-all`, removes its files.
pub mod Fleet
pub mod Spares
pub mod Stopped
pub mod Unloaded
use vmfleet.Prelude.{
  ℕ, ◌++◌, List, [], ◌∷◌, Bool, true, false, not, ◌&&◌, Option, some, none, Result, ok, err,
  if◌then◌else◌, length, ◌==◌, to_option,
}
use vmfleet.Prelude.Text.{Text, codes}
use vmfleet.Prelude.Words.{trim}
use vmfleet.Prelude.Act.{◌>>=◌, ◌>>◌, pure, try_, fail}
use vmfleet.World.{
  System, Io, Failure, History, config_failed, confirmed, change, read_text, remove_file,
  remove_tree,
}
use vmfleet.Paths.{join, systemd_user_dir, state_dir}
use vmfleet.Naming.{vm_prefix, worker_unit_glob, supervisor_unit, gc_timer, gc_service}
use vmfleet.Config.{Base, Config, ConfigError, GitHub}
use vmfleet.Config.Validate.{load, token}
use vmfleet.Github.{Client}
use vmfleet.Github.Calls.{delete_runners_by_prefix}
use vmfleet.Multipass.{VmState, list_prefixed, purge}
use vmfleet.Systemd.{disable_now, list_active, stop, daemon_reload}
use vmfleet.Commands.Gc.{is_base}

pub record UninstallOpts : Type 0 where
  pub purge_all : Bool
  pub yes : Bool

uninstall_prompt : Bool → Text
uninstall_prompt true =
    codes
      "This will stop the fleet, purge ALL vmfleet VMs/runners, and delete base+config+state. Continue?"
uninstall_prompt false =
    codes "This will stop the fleet and purge all vmfleet VMs/runners (config kept). Continue?"

abbrev units_or_none : Result Failure (List Text) → List Text
units_or_none (err e) = []
units_or_none (ok units) = units

-- The bases that are kept: those of the configuration, if it loaded, unless all is to go.
unfoldable pub keeps : {F : Type 0} → Option (Config F) → Bool → Text → Bool
keeps none purge_all name = false
keeps (some cfg) purge_all name = is_base cfg.bases name && not purge_all

-- A blank variable counts as none, so that the file is read.
unfoldable pub needs_file : Option Text → Bool
needs_file none = true
needs_file (some t) = length (trim t) == 0

-- The environment, the parser of the configuration, and `Client::new`.
module _ {F : Type 0} (sys : System) (env : Text → Option Text) (parse : Text → Option (Config F))
    (connect : GitHub → Text → Result ConfigError Client) where
  -- `Config::load(cfg_path).ok()`
  unfoldable pub load_config : Text → Io (Option (Config F))
  load_config cfg_path = do
    text ← read_text sys cfg_path
    pure (to_option (load env (λ _. text) parse cfg_path))

  token_file_text : Config F → Bool → Io (Option Text)
  token_file_text cfg false = pure none
  token_file_text cfg true = read_text sys cfg.github.token_file

  unfoldable pub config_token : Config F → Io (Result ConfigError Text)
  unfolding token_file_text
  config_token cfg = do
    text ← token_file_text cfg (needs_file (env (codes "VMFLEET_TOKEN")))
    pure (token cfg env (λ _. text))

  remove_units : List Text → Io (Unit {0})
  remove_units [] = pure tt
  remove_units (u ∷ us) =
      change sys (remove_file (join (systemd_user_dir env) u)) >> remove_units us

  stop_units : List Text → Io (Unit {0})
  stop_units [] = pure tt
  stop_units (u ∷ us) = try_ (stop sys u) >> stop_units us

  -- The supervisor, the timer and the workers are stopped.
  unfoldable pub stop_fleet : Io (Unit {0})
  unfolding remove_units stop_units
  stop_fleet = do
    try_ (disable_now sys supervisor_unit)
    try_ (disable_now sys gc_timer)
    remove_units (supervisor_unit ∷ gc_timer ∷ gc_service ∷ [])
    units ← try_ (list_active sys worker_unit_glob)
    stop_units (units_or_none units)
    try_ (daemon_reload sys)
    pure tt

  delete_records : Result ConfigError Client → Io (Unit {0})
  delete_records (err e) = pure tt
  delete_records (ok client) = try_ (delete_runners_by_prefix client vm_prefix) >> pure tt

  deregister_with : Config F → Result ConfigError Text → Io (Unit {0})
  unfolding delete_records
  deregister_with cfg (err e) = fail config_failed
  deregister_with cfg (ok t) = delete_records (connect cfg.github t)

  -- A token that cannot be read ends the command here.
  unfoldable pub deregister_all : Option (Config F) → Io (Unit {0})
  unfolding deregister_with
  deregister_all none = pure tt
  deregister_all (some cfg) = do t ← config_token cfg; deregister_with cfg t

  unfoldable pub purge_listed : Option (Config F) → Bool → List (Text × VmState) → Io (Unit {0})
  purge_listed cfg purge_all [] = pure tt
  purge_listed cfg purge_all ((name, state) ∷ vms) =
      let rest = purge_listed cfg purge_all vms in
      if keeps cfg purge_all name then rest else (try_ (purge sys name) >> rest)

  remove_token : Option (Config F) → Io (Unit {0})
  remove_token none = pure tt
  remove_token (some cfg) = change sys (remove_file cfg.github.token_file) >> pure tt

  remove_files : Text → Option (Config F) → Bool → Io (Unit {0})
  unfolding remove_token
  remove_files cfg_path cfg false = pure tt
  remove_files cfg_path cfg true = do
    remove_token cfg
    change sys (remove_tree (state_dir env))
    change sys (remove_file cfg_path)
    pure tt

  unfoldable pub tear_down : Text → Bool → Option (Config F) → Io (Unit {0})
  unfolding deregister_all purge_listed remove_files
  tear_down cfg_path purge_all cfg = do
    deregister_all cfg
    vms ← list_prefixed sys vm_prefix
    purge_listed cfg purge_all vms
    remove_files cfg_path cfg purge_all

  uninstall_if : Text → Bool → Bool → Io (Unit {0})
  unfolding stop_fleet load_config tear_down
  uninstall_if cfg_path purge_all false = pure tt
  uninstall_if cfg_path purge_all true = do
    stop_fleet
    cfg ← load_config cfg_path
    tear_down cfg_path purge_all cfg

  asked_first : UninstallOpts → Io Bool
  unfolding uninstall_prompt
  asked_first opts = if opts.yes then pure true else confirmed sys (uninstall_prompt opts.purge_all)

  unfoldable pub uninstall : Text → UninstallOpts → Io (Unit {0})
  unfolding asked_first uninstall_if
  uninstall cfg_path opts = asked_first opts >>= uninstall_if cfg_path opts.purge_all
