-- ===== src/Commands/Install.antt =====
-- `install` of src/commands.rs: it obtains the configuration, lets the user's services linger, and
-- installs and starts the units of the supervisor and of the garbage collection.
pub mod Dry
pub mod Units
pub mod Started
use vmfleet.Prelude.{◌++◌, List, [], ◌∷◌, Bool, true, false, Option, some, none, Result, ok, err}
use vmfleet.Prelude.Text.{Text, codes}
use vmfleet.Prelude.Act.{◌>>=◌, ◌>>◌, pure, fail}
use vmfleet.World.{
  System, Io, Failure, config_failed, io_failed, not_available, change, exists, read_text, make_dir,
  write_file,
}
use vmfleet.Paths.{join, or_path, systemd_user_dir}
use vmfleet.Naming.{supervisor_unit, gc_service, gc_timer}
use vmfleet.Config.{Base, Config, migrate}
use vmfleet.Config.Validate.{LoadError, load}
use vmfleet.Multipass.{available, vm_exists}
use vmfleet.Systemd.{daemon_reload, enable_now, restart, ensure_linger, linger_enabled}
use vmfleet.Commands.Scale.{write_config}
use vmfleet.Commands.Setup.{must, prompt_config}

pub record InstallOpts : Type 0 where
  pub non_interactive : Bool
  pub dry_run : Bool
  pub upgrade : Bool

-- What both services run, with the paths in quotes.
exec_start : Text → Text → Text → Text
exec_start exe cfg_path mode =
    codes "ExecStart=\"" ++ (exe ++ (codes "\" --config \"" ++ (cfg_path ++ (codes "\" " ++ mode))))

unfoldable pub supervisor_unit_contents : Text → Text → Text
unfolding exec_start
supervisor_unit_contents exe cfg_path =
    codes "[Unit]\nDescription=vmfleet autoscaling runner supervisor\nAfter=default.target\n\n"
    ++ (codes "[Service]\nType=simple\n"
        ++ (exec_start exe cfg_path (codes "supervisor\n")
            ++ (codes "Restart=always\nRestartSec=10\nKillMode=process\n\n"
                ++ codes "[Install]\nWantedBy=default.target\n")))

unfoldable pub gc_service_contents : Text → Text → Text
unfolding exec_start
gc_service_contents exe cfg_path =
    codes "[Unit]\nDescription=vmfleet orphan GC\n\n[Service]\nType=oneshot\n"
    ++ exec_start exe cfg_path (codes "prune\n")

abbrev pub gc_timer_contents : Text
gc_timer_contents =
    codes "[Unit]\nDescription=vmfleet orphan GC timer\n\n"
    ++ (codes "[Timer]\nOnCalendar=hourly\nPersistent=true\n\n"
        ++ codes "[Install]\nWantedBy=timers.target\n")

-- The environment, `toml`, `Path::parent`, `abs` and the default of `psi_max` are given.
module _ {F : Type 0} (sys : System) (env : Text → Option Text) (parse : Text → Option (Config F))
    (print : Config F → Option Text) (parent : Text → Option Text) (absolute : Text → Text)
    (twenty : F) where
  unfoldable pub current_user : Text
  current_user = or_path env (env (codes "USER")) (codes "root")

  write_migrated : Text → Bool → Config F × Bool → Io (Config F)
  write_migrated cfg_path dry_run (cfg, false) = pure cfg
  write_migrated cfg_path true (cfg, true) = pure cfg
  write_migrated cfg_path false (cfg, true) = do
    write_config sys print parent cfg cfg_path
    pure cfg

  upgraded : Text → Bool → Bool → Config F → Io (Config F)
  unfolding write_migrated
  upgraded cfg_path dry_run false cfg = pure cfg
  upgraded cfg_path dry_run true cfg = write_migrated cfg_path dry_run (migrate cfg)

  use_loaded : Text → InstallOpts → Result LoadError (Config F) → Io (Config F)
  unfolding upgraded
  use_loaded cfg_path opts (err e) = fail config_failed
  use_loaded cfg_path opts (ok cfg) = upgraded cfg_path opts.dry_run opts.upgrade cfg

  unfoldable pub use_existing : Text → InstallOpts → Io (Config F)
  unfolding use_loaded
  use_existing cfg_path opts = do
    text ← read_text sys cfg_path
    use_loaded cfg_path opts (load env (λ _. text) parse cfg_path)

  shown : Option Text → Io (Unit {0})
  shown none = fail config_failed
  shown (some text) = pure tt

  -- A dry run prints the configuration.
  keep_new : Text → Bool → Config F → Io (Unit {0})
  unfolding shown
  keep_new cfg_path true cfg = shown (print cfg)
  keep_new cfg_path false cfg = write_config sys print parent cfg cfg_path

  make_new : Text → Bool → Bool → Io (Config F)
  unfolding keep_new
  make_new cfg_path dry_run true = fail config_failed
  make_new cfg_path dry_run false = do
    cfg ← prompt_config sys env parent twenty
    keep_new cfg_path dry_run cfg
    pure cfg

  unfoldable pub obtain_config : Text → InstallOpts → Bool → Io (Config F)
  unfolding use_existing make_new
  obtain_config cfg_path opts true = use_existing cfg_path opts
  obtain_config cfg_path opts false = make_new cfg_path opts.dry_run opts.non_interactive

  linger_unless : Bool → Io (Unit {0})
  unfolding current_user
  linger_unless true = pure tt
  linger_unless false = ensure_linger sys current_user

  unfoldable pub set_linger : Bool → Io (Unit {0})
  unfolding current_user linger_unless
  set_linger true = pure tt
  set_linger false = linger_enabled sys current_user >>= linger_unless

  -- `?` on a write of a file of the user's units.
  unfoldable pub write_unit : Text → Text → Io (Unit {0})
  write_unit name contents = do
    written ← change sys (write_file (join (systemd_user_dir env) name) contents)
    must written

  unfoldable pub make_unit_dir : Io (Unit {0})
  make_unit_dir = do made ← change sys (make_dir (systemd_user_dir env)); must made

  unfoldable pub install_gc_timer : Text → Text → Io (Unit {0})
  unfolding write_unit make_unit_dir
  install_gc_timer exe cfg_path = do
    make_unit_dir
    write_unit gc_service (gc_service_contents exe (absolute cfg_path))
    write_unit gc_timer gc_timer_contents

  restart_if : Bool → Io (Unit {0})
  restart_if false = pure tt
  restart_if true = restart sys supervisor_unit

  unfoldable pub start_units : Bool → Io (Unit {0})
  unfolding restart_if
  start_units upgrade = do
    daemon_reload sys
    enable_now sys supervisor_unit
    enable_now sys gc_timer
    restart_if upgrade

  unfoldable pub install_units : Text → Text → Bool → Io (Unit {0})
  unfolding write_unit make_unit_dir install_gc_timer start_units
  install_units exe cfg_path upgrade = do
    make_unit_dir
    write_unit supervisor_unit (supervisor_unit_contents exe (absolute cfg_path))
    install_gc_timer exe cfg_path
    start_units upgrade

  set_units : Text → InstallOpts → Option Text → Bool → Io (Unit {0})
  unfolding install_units
  set_units cfg_path opts none dry_run = fail io_failed
  set_units cfg_path opts (some exe) true = pure tt
  set_units cfg_path opts (some exe) false = install_units exe cfg_path opts.upgrade

  -- A missing base only makes a note.
  unfoldable pub note_bases : List Base → Io (Unit {0})
  note_bases [] = pure tt
  note_bases (b ∷ bs) = vm_exists sys b.name >> note_bases bs

  install_if : Text → InstallOpts → Option Text → Bool → Io (Unit {0})
  unfolding obtain_config set_linger set_units note_bases
  install_if cfg_path opts exe false = fail not_available
  install_if cfg_path opts exe true = do
    there ← exists sys cfg_path
    cfg ← obtain_config cfg_path opts there
    set_linger opts.dry_run
    set_units cfg_path opts exe opts.dry_run
    note_bases cfg.bases

  -- The path of the running program is given.
  unfoldable pub install : Text → InstallOpts → Option Text → Io (Unit {0})
  unfolding install_if
  install cfg_path opts exe = available sys >>= install_if cfg_path opts exe
