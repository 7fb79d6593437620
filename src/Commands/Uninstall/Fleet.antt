-- ===== src/Commands/Uninstall/Fleet.antt =====
-- What `uninstall` of src/commands.rs does to stop the fleet.
use vmfleet.Prelude.{All, ℕ, List, [], ◌∷◌, Option, some, Result}
use vmfleet.Prelude.Text.{Text, codes}
use vmfleet.Prelude.Act.{Returns, Returns-proceed, Returns-mono}
use vmfleet.World.{
  System, History, Request, command, remove_file, change, run, checked, Extends, unchanged, asked,
  Extends-trans, Extends-proceed,
}
use vmfleet.Paths.{join, systemd_user_dir}
use vmfleet.Naming.{worker_unit_glob, supervisor_unit, gc_timer, gc_service}
use vmfleet.Config.{Config, ConfigError, GitHub}
use vmfleet.Github.{Client}
use vmfleet.Systemd.{systemctl, disable_now, list_active, stop, daemon_reload, list_args}
use vmfleet.Commands.Uninstall.{remove_units, stop_units, stop_fleet, units_or_none}

-- The units of the fleet that have files.
pub data IsUnit : Text → Type 0 where
  of_supervisor : IsUnit supervisor_unit
  of_timer : IsUnit gc_timer
  of_service : IsUnit gc_service

-- For a set of requests that holds the commands of systemctl and the removal of unit files.
module _ {F : Type 0} (sys : System) (env : Text → Option Text) (parse : Text → Option (Config F))
    (connect : GitHub → Text → Result ConfigError Client) (P : Request → Type 0)
    (controls : (args : List Text) (t : Option ℕ) → P (command systemctl args t))
    (removes_unit : (u : Text) → IsUnit u → P (remove_file (join (systemd_user_dir env) u))) where
  abbrev Keeps : History → History → Type 0
  Keeps h h' = Extends P h h'

  list_active-Keeps : (pattern : Text) (h : History) → Keeps h (list_active sys pattern h).1
  unfolding list_active run
  list_active-Keeps pattern h =
      let args = list_args sys pattern (codes "--state=active,activating") in
      Extends-proceed (run sys systemctl args (some 15) h) _ (asked unchanged _ (controls _ _))
        (λ _ _. unchanged)

  daemon_reload-Keeps : (h : History) → Keeps h (daemon_reload sys h).1
  unfolding daemon_reload checked run
  daemon_reload-Keeps h =
      Extends-proceed
        (checked sys systemctl (codes "--user" ∷ codes "daemon-reload" ∷ []) (some 20) h) _
        (asked unchanged _ (controls _ _)) (λ _ _. unchanged)

  remove_units-Returns :
      (us : List Text)
      → All IsUnit us
      → (h : History) → Returns (remove_units sys env parse connect us h) (λ _ h'. Keeps h h')
  unfolding remove_units change
  remove_units-Returns [] a h = unchanged
  remove_units-Returns (u ∷ us) (i, a) h =
      Returns-mono (remove_units sys env parse connect us _) _ _ (remove_units-Returns us a _)
        (λ _ h' e. Extends-trans (asked unchanged _ (removes_unit u i)) e)

  stop_units-Returns :
      (us : List Text) (h : History)
      → Returns (stop_units sys env parse connect us h) (λ _ h'. Keeps h h')
  unfolding stop_units stop run
  stop_units-Returns [] h = unchanged
  stop_units-Returns (u ∷ us) h =
      Returns-mono (stop_units sys env parse connect us _) _ _ (stop_units-Returns us _)
        (λ _ h' e. Extends-trans (asked (asked unchanged _ (controls _ _)) _ (controls _ _)) e)

  -- The stop of the fleet never fails, and asks for nothing else.
  pub stop_fleet-Returns :
      (h : History) → Returns (stop_fleet sys env parse connect h) (λ _ h'. Keeps h h')
  unfolding stop_fleet disable_now run
  stop_fleet-Returns h =
      Returns-proceed
        (remove_units sys env parse connect (supervisor_unit ∷ gc_timer ∷ gc_service ∷ []) _) _
        (λ _ h'. Keeps h h') _
        (Returns-mono
          (remove_units sys env parse connect (supervisor_unit ∷ gc_timer ∷ gc_service ∷ []) _) _ _
          (remove_units-Returns (supervisor_unit ∷ gc_timer ∷ gc_service ∷ [])
            (of_supervisor, (of_timer, (of_service, tt))) _)
          (λ _ h' e. Extends-trans (asked (asked unchanged _ (controls _ _)) _ (controls _ _)) e))
        (λ _ h2 e.
          let units = list_active sys worker_unit_glob h2 in
          Returns-proceed (stop_units sys env parse connect (units_or_none units.0) units.1) _
            (λ _ h'. Keeps units.1 h') _ (stop_units-Returns (units_or_none units.0) units.1)
            (λ _ h4 e'. Extends-trans e (
              Extends-trans (list_active-Keeps worker_unit_glob h2)
                (Extends-trans e' (daemon_reload-Keeps h4)))))
