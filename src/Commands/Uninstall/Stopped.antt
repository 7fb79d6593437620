-- ===== src/Commands/Uninstall/Stopped.antt =====
-- The requests by which `uninstall` of src/commands.rs stops the fleet, in their order.
use vmfleet.Prelude.{
  ◌++◌, ℕ, List, [], ◌∷◌, Option, none, some, Result, ok, ◌≡◌, refl, Option-cases, inl, inr,
}
use vmfleet.Prelude.Text.{Text, codes}
use vmfleet.Prelude.Act.{◌>>◌, pure, try_, proceed-pure}
use vmfleet.World.{System, CmdOut, History, Request, command, remove_file, change, run, checked}
use vmfleet.World.Steps.{after, after-append}
use vmfleet.Paths.{join, systemd_user_dir}
use vmfleet.Naming.{worker_unit_glob, supervisor_unit, gc_timer, gc_service}
use vmfleet.Config.{Config, ConfigError, GitHub}
use vmfleet.Github.{Client}
use vmfleet.Systemd.{
  systemctl, service_names, disable_now, list_active, stop, daemon_reload, list_args,
}
use vmfleet.Commands.Uninstall.{remove_units, stop_units, stop_fleet}

abbrev pub control : List Text → ℕ → Request
control args timeout = command systemctl (codes "--user" ∷ args) (some timeout)

-- Each unit is stopped, and its failure forgotten.
abbrev pub unit_stops : List Text → List Request
unit_stops [] = []
unit_stops (u ∷ us) =
    control (codes "stop" ∷ u ∷ []) 75 ∷ control (codes "reset-failed" ∷ u ∷ []) 10 ∷ unit_stops us

abbrev answered_units : Option CmdOut → List Text
answered_units none = []
answered_units (some o) = service_names o.stdout

module _ (sys : System) (env : Text → Option Text) where
  abbrev unit_file : Text → Request
  unit_file u = remove_file (join (systemd_user_dir env) u)

  -- The supervisor and the timer are stopped, the files are removed, and the workers are listed.
  abbrev pub first_steps : List Request
  first_steps =
      control (codes "disable" ∷ codes "--now" ∷ supervisor_unit ∷ []) 30
      ∷ control (codes "disable" ∷ codes "--now" ∷ gc_timer ∷ []) 30
      ∷ unit_file supervisor_unit
      ∷ unit_file gc_timer
      ∷ unit_file gc_service
      ∷ command systemctl
          (codes "--user"
            ∷ codes "list-units"
            ∷ worker_unit_glob
            ∷ codes "--no-legend"
            ∷ codes "--plain"
            ∷ codes "--state=active,activating"
            ∷ [])
          (some 15)
      ∷ []

  -- Then the workers that the listing names are stopped.
  abbrev pub last_steps : Option CmdOut → List Request
  last_steps listing =
      unit_stops (answered_units listing) ++ control (codes "daemon-reload" ∷ []) 20 ∷ []

  abbrev pub fleet_stopped : History → History
  fleet_stopped h = let h' = after first_steps h in after (last_steps (sys.on_command h')) h'

  module _ {F : Type 0} (parse : Text → Option (Config F))
      (connect : GitHub → Text → Result ConfigError Client) where
    stop_units-steps :
        (us : List Text) (h : History)
        → stop_units sys env parse connect us h ≡ (ok tt, after (unit_stops us) h)
    unfolding stop_units stop run
    stop_units-steps [] h = refl
    stop_units-steps (u ∷ us) h = stop_units-steps us _

    daemon_reload-step :
        (h : History) → (daemon_reload sys h).1 ≡ control (codes "daemon-reload" ∷ []) 20 ∷ h
    unfolding daemon_reload checked run
    daemon_reload-step h =
        proceed-pure
          (checked sys systemctl (codes "--user" ∷ codes "daemon-reload" ∷ []) (some 20) h)
          (λ _. tt)

    finish_steps :
        (us : List Text) (h : History)
        → (stop_units sys env parse connect us >> (try_ (daemon_reload sys) >> pure tt)) h
          ≡ (ok tt, after (unit_stops us ++ control (codes "daemon-reload" ∷ []) 20 ∷ []) h)
    finish_steps us h = rw (stop_units-steps us h) (
        rw (daemon_reload-step (after (unit_stops us) h))
          (rw (after-append (unit_stops us) (control (codes "daemon-reload" ∷ []) 20 ∷ []) h) refl))

    pub stop_fleet-steps :
        (h : History) → stop_fleet sys env parse connect h ≡ (ok tt, fleet_stopped h)
    unfolding stop_fleet disable_now run list_active list_args remove_units change
    stop_fleet-steps h =
        let h' = after first_steps h in
        elim (Option-cases (sys.on_command h')) [
          | inl none_ ↦ rw none_ (finish_steps [] h')
          | inr (o, some_) ↦ rw some_ (finish_steps (service_names o.stdout) h')
        ]
