-- ===== src/Commands/Install/Started.antt =====
-- What a run of `install` of src/commands.rs that succeeds has done to the units.
use vmfleet.Prelude.{List, [], ◌∷◌, Bool, true, false, Option, some, none, ◌≡◌, refl}
use vmfleet.Prelude.Text.{Text, codes}
use vmfleet.Prelude.Act.{◌>>◌, OnOk, OnOk-proceed, OnOk-mono, OnOk-any, OnOk-log}
use vmfleet.World.{
  exists, path_exists, System, History, Request, command, run, Extends, unchanged, asked,
  Extends-trans,
}
use vmfleet.World.Steps.{after, AllWorked}
use vmfleet.Config.{Base, Config}
use vmfleet.Multipass.{multipass, available, vm_exists}
use vmfleet.Commands.Install.Units.{unit_steps, install_units-Completes}
use vmfleet.Commands.Install.{
  install_units, InstallOpts, obtain_config, set_linger, set_units, note_bases, install_if, install,
}

-- Asks whether a machine is there.
pub data Informs : Request → Type 0 where
  info : (name : Text) → Informs (command multipass (codes "info" ∷ name ∷ []) (some 20))

-- The options of a run that is not dry.
abbrev pub for_real : Bool → Bool → InstallOpts
for_real non_interactive upgrade = record {
  non_interactive = non_interactive;
  dry_run = false;
  upgrade = upgrade;
}

module _ (sys : System) where
  module _ {F : Type 0} (env : Text → Option Text) (parse : Text → Option (Config F))
      (print : Config F → Option Text) (parent : Text → Option Text) (absolute : Text → Text)
      (twenty : F) (cfg_path : Text) where
    note_bases-Informs :
        (bases : List Base) (h : History)
        → Extends Informs h (note_bases sys env parse print parent absolute twenty bases h).1
    unfolding note_bases vm_exists run
    note_bases-Informs [] h = unchanged
    note_bases-Informs (b ∷ bs) h =
        Extends-trans (asked unchanged _ (info b.name)) (note_bases-Informs bs _)

    -- The program's path is known, and at some time of the run every request for the units was made
    -- in its order and worked; what came later only asked for machines.
    pub record UnitsStand (exe : Option Text) (upgrade : Bool) (end : History) : Type 0 where
      pub program : Text
      pub is_known : exe ≡ some program
      pub before : History
      pub all_worked :
          AllWorked sys
            (unit_steps sys env parse print parent absolute twenty cfg_path program upgrade)
            before
      pub informs :
          Extends Informs
            (after
              (unit_steps sys env parse print parent absolute twenty cfg_path program upgrade)
              before)
            end

    units-Stand :
        (asks upgrade : Bool) (exe : Option Text) (bases : List Base) (h : History)
        → OnOk
            ((set_units sys env parse print parent absolute twenty cfg_path
                  (for_real asks upgrade)
                  exe
                  false
                >> note_bases sys env parse print parent absolute twenty bases)
              h)
            (λ _ end. UnitsStand exe upgrade end)
    unfolding set_units
    units-Stand asks upgrade none bases h = tt
    units-Stand asks upgrade (some program) bases h =
        OnOk-proceed
          (install_units sys env parse print parent absolute twenty program cfg_path upgrade h) _ _
          _
          (install_units-Completes sys env parse print parent absolute twenty cfg_path program
            upgrade h)
          (λ _ h1 (e, worked).
            let notes = note_bases-Informs bases h1 in
            OnOk-mono (note_bases sys env parse print parent absolute twenty bases h1) _ _
              (OnOk-log _ (λ _ _. Unit) _ (OnOk-any _) notes)
              (λ _ end (_, log). record {
                program = program;
                is_known = refl;
                before = h;
                all_worked = worked;
                informs = rw⁻¹ e log;
              }))

    install_if-Stands :
        (asks upgrade : Bool) (exe : Option Text) (there : Bool) (h : History)
        → OnOk
            (install_if sys env parse print parent absolute twenty cfg_path
              (for_real asks upgrade)
              exe
              there
              h)
            (λ _ end. UnitsStand exe upgrade end)
    unfolding install_if exists
    install_if-Stands asks upgrade exe false h = tt
    install_if-Stands asks upgrade exe true h =
        OnOk-proceed
          (obtain_config sys env parse print parent absolute twenty cfg_path (for_real asks upgrade)
            (sys.on_exists (path_exists cfg_path ∷ h)) (path_exists cfg_path ∷ h))
          _ (λ _ _. Unit) _ (OnOk-any _)
          (λ cfg h1 _.
            OnOk-proceed (set_linger sys env parse print parent absolute twenty false h1) _
              (λ _ _. Unit) _
              (OnOk-any (set_linger sys env parse print parent absolute twenty false h1))
              (λ _ h2 _. units-Stand asks upgrade exe cfg.bases h2))

    -- Where a run that is not dry succeeds, it wrote the files of the units, reloaded them and enabled
    -- the supervisor and the timer, each step after the one before it had worked; and it restarted
    -- the supervisor last where it upgrades.
    pub install-UnitsStand :
        (asks upgrade : Bool) (exe : Option Text) (h : History)
        → OnOk
            (install sys env parse print parent absolute twenty cfg_path
              (for_real asks upgrade)
              exe
              h)
            (λ _ end. UnitsStand exe upgrade end)
    unfolding install
    install-UnitsStand asks upgrade exe h =
        OnOk-proceed (available sys h) _ (λ _ _. Unit) _ (OnOk-any (available sys h))
          (λ there h1 _. install_if-Stands asks upgrade exe there h1)
