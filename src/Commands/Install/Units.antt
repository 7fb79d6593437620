-- ===== src/Commands/Install/Units.antt =====
-- The requests by which `install` of src/commands.rs sets up the units.
use vmfleet.Prelude.{
  ◌++◌, List, [], ◌∷◌, Bool, true, false, Option, some, refl, inl, inr, Bool-cases,
}
use vmfleet.Prelude.Text.{Text, codes}
use vmfleet.Prelude.Act.{◌>>=◌}
use vmfleet.World.{System, Request, command, make_dir, write_file, change}
use vmfleet.World.Steps.{made, Completes, Completes-append, checked_unit-Completes}
use vmfleet.Paths.{join, systemd_user_dir}
use vmfleet.Naming.{supervisor_unit, gc_service, gc_timer}
use vmfleet.Config.{Config}
use vmfleet.Systemd.{systemctl, daemon_reload, enable_now, restart}
use vmfleet.Commands.Setup.{must}
use vmfleet.Commands.Install.{
  supervisor_unit_contents, gc_service_contents, gc_timer_contents, write_unit, make_unit_dir,
  install_gc_timer, restart_if, start_units, install_units,
}

abbrev pub reload_command : Request
reload_command = command systemctl (codes "--user" ∷ codes "daemon-reload" ∷ []) (some 20)

abbrev pub enable_command : Text → Request
enable_command unit =
    command systemctl (codes "--user" ∷ codes "enable" ∷ codes "--now" ∷ unit ∷ []) (some 30)

abbrev pub restart_command : Text → Request
restart_command unit = command systemctl (codes "--user" ∷ codes "restart" ∷ unit ∷ []) (some 30)

abbrev restarts : Bool → List Request
restarts false = []
restarts true = restart_command supervisor_unit ∷ []

module _ (sys : System) where
  change-Completes : (r : Request) → Completes sys (r ∷ []) (do done ← change sys r; must done)
  unfolding change must
  change-Completes r h = elim (Bool-cases (sys.on_write (r ∷ h))) [
    | inl done ↦ rw done (refl, (made r done, tt))
    | inr failed ↦ rw failed tt
  ]

  module _ {F : Type 0} (env : Text → Option Text) (parse : Text → Option (Config F))
      (print : Config F → Option Text) (parent : Text → Option Text) (absolute : Text → Text)
      (twenty : F) (cfg_path exe : Text) where
    abbrev unit_file : Text → Text
    unit_file name = join (systemd_user_dir env) name

    abbrev start_steps : Bool → List Request
    start_steps upgrade =
        reload_command ∷ enable_command supervisor_unit ∷ enable_command gc_timer ∷ restarts upgrade

    abbrev gc_steps : List Request
    gc_steps =
        make_dir (systemd_user_dir env)
        ∷ write_file (unit_file gc_service) (gc_service_contents exe (absolute cfg_path))
        ∷ write_file (unit_file gc_timer) gc_timer_contents
        ∷ []

    -- The files of the units are written, then the units are loaded, enabled and started.
    abbrev pub unit_steps : Bool → List Request
    unit_steps upgrade =
        make_dir (systemd_user_dir env)
        ∷ write_file (unit_file supervisor_unit) (supervisor_unit_contents exe (absolute cfg_path))
        ∷ (gc_steps ++ start_steps upgrade)

    restart_if-Completes :
        (upgrade : Bool)
        → Completes sys
            (restarts upgrade)
            (restart_if sys env parse print parent absolute twenty upgrade)
    unfolding restart_if restart
    restart_if-Completes false h = (refl, tt)
    restart_if-Completes true h = checked_unit-Completes sys _ _ _ h

    start_units-Completes :
        (upgrade : Bool)
        → Completes sys
            (start_steps upgrade)
            (start_units sys env parse print parent absolute twenty upgrade)
    unfolding start_units daemon_reload enable_now
    start_units-Completes upgrade =
        let enables = enable_command gc_timer ∷ restarts upgrade in
        Completes-append sys (reload_command ∷ []) (enable_command supervisor_unit ∷ enables) _ _
          (checked_unit-Completes sys _ _ _)
          (Completes-append sys (enable_command supervisor_unit ∷ []) enables _ _
            (checked_unit-Completes sys _ _ _)
            (Completes-append sys (enable_command gc_timer ∷ []) (restarts upgrade) _ _
              (checked_unit-Completes sys _ _ _) (restart_if-Completes upgrade)))

    install_gc_timer-Completes :
        Completes sys gc_steps
          (install_gc_timer sys env parse print parent absolute twenty exe cfg_path)
    unfolding install_gc_timer make_unit_dir write_unit
    install_gc_timer-Completes =
        let writes = write_file (unit_file gc_timer) gc_timer_contents ∷ [] in
        Completes-append sys (make_dir (systemd_user_dir env) ∷ [])
          (write_file (unit_file gc_service) (gc_service_contents exe (absolute cfg_path)) ∷ writes)
          _ _ (change-Completes _)
          (Completes-append sys
            (write_file (unit_file gc_service) (gc_service_contents exe (absolute cfg_path)) ∷ [])
            writes _ _ (change-Completes _) (change-Completes _))

    pub install_units-Completes :
        (upgrade : Bool)
        → Completes sys
            (unit_steps upgrade)
            (install_units sys env parse print parent absolute twenty exe cfg_path upgrade)
    unfolding install_units make_unit_dir write_unit
    install_units-Completes upgrade =
        let rest = gc_steps ++ start_steps upgrade in
        let write =
          write_file (unit_file supervisor_unit)
            (supervisor_unit_contents exe (absolute cfg_path)) in
        Completes-append sys (make_dir (systemd_user_dir env) ∷ []) (write ∷ rest) _ _
          (change-Completes _)
          (Completes-append sys (write ∷ []) rest _ _ (change-Completes _) (
            Completes-append sys gc_steps (start_steps upgrade) _ _ install_gc_timer-Completes
              (start_units-Completes upgrade)))
