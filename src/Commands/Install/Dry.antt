-- ===== src/Commands/Install/Dry.antt =====
-- What `install --dry-run` of src/commands.rs asks of the system where a configuration is there.
use vmfleet.Prelude.{List, [], ◌∷◌, Bool, true, false, Option, some, none, Result, ok, err, ◌≡◌}
use vmfleet.Prelude.Text.{Text, codes}
use vmfleet.World.{
  System, History, Request, command, path_exists, read_file, run, exists, read_text, Extends,
  unchanged, asked, Extends-trans, Extends-proceed,
}
use vmfleet.Config.{Base, Config, migrate}
use vmfleet.Config.Validate.{LoadError}
use vmfleet.Multipass.{multipass, available, vm_exists}
use vmfleet.Commands.Install.{
  InstallOpts, write_migrated, upgraded, use_loaded, use_existing, obtain_config, set_linger,
  set_units, note_bases, install_if, install,
}

-- The requests that look only: the version of multipass, whether a machine or a file is there, and
-- the text of the configuration.
pub data Looks (cfg_path : Text) : Request → Type 0 where
  version : Looks cfg_path (command multipass (codes "version" ∷ []) (some 10))
  info : (name : Text) → Looks cfg_path (command multipass (codes "info" ∷ name ∷ []) (some 20))
  sees : Looks cfg_path (path_exists cfg_path)
  reads : Looks cfg_path (read_file cfg_path)

-- The options of a dry run.
abbrev pub dry : Bool → Bool → InstallOpts
dry non_interactive upgrade = record {
  non_interactive = non_interactive;
  dry_run = true;
  upgrade = upgrade;
}

module _ {F : Type 0} (sys : System) (env : Text → Option Text) (parse : Text → Option (Config F))
    (print : Config F → Option Text) (parent : Text → Option Text) (absolute : Text → Text)
    (twenty : F) (cfg_path : Text) where
  write_migrated-quiet :
      (c : Config F × Bool) (h : History)
      → Extends
          (Looks cfg_path)
          h
          (write_migrated sys env parse print parent absolute twenty cfg_path true c h).1
  unfolding write_migrated
  write_migrated-quiet (c, true) h = unchanged
  write_migrated-quiet (c, false) h = unchanged

  upgraded-quiet :
      (upgrade : Bool) (c : Config F) (h : History)
      → Extends
          (Looks cfg_path)
          h
          (upgraded sys env parse print parent absolute twenty cfg_path true upgrade c h).1
  unfolding upgraded
  upgraded-quiet true c h = write_migrated-quiet (migrate c) h
  upgraded-quiet false c h = unchanged

  use_loaded-quiet :
      (asks upgrade : Bool) (c : Result LoadError (Config F)) (h : History)
      → Extends
          (Looks cfg_path)
          h
          (use_loaded sys env parse print parent absolute twenty cfg_path (dry asks upgrade) c h).1
  unfolding use_loaded
  use_loaded-quiet asks upgrade (err e) h = unchanged
  use_loaded-quiet asks upgrade (ok c) h = upgraded-quiet upgrade c h

  use_existing-quiet :
      (asks upgrade : Bool) (h : History)
      → Extends
          (Looks cfg_path)
          h
          (use_existing sys env parse print parent absolute twenty cfg_path (dry asks upgrade) h).1
  unfolding use_existing read_text
  use_existing-quiet asks upgrade h =
      Extends-trans (asked unchanged (read_file cfg_path) reads)
        (use_loaded-quiet asks upgrade _ (read_file cfg_path ∷ h))

  set_units-quiet :
      (asks upgrade : Bool) (exe : Option Text) (h : History)
      → Extends
          (Looks cfg_path)
          h
          (set_units sys env parse print parent absolute twenty cfg_path
            (dry asks upgrade)
            exe
            true
            h).1
  unfolding set_units
  set_units-quiet asks upgrade none h = unchanged
  set_units-quiet asks upgrade (some exe) h = unchanged

  note_bases-quiet :
      (bases : List Base) (h : History)
      → Extends (Looks cfg_path) h (note_bases sys env parse print parent absolute twenty bases h).1
  unfolding note_bases vm_exists run
  note_bases-quiet [] h = unchanged
  note_bases-quiet (b ∷ bs) h =
      Extends-trans (asked unchanged _ (info b.name)) (note_bases-quiet bs _)

  abbrev seen : History → History
  seen h = path_exists cfg_path ∷ (available sys h).1

  install_if-quiet :
      (asks upgrade : Bool) (exe : Option Text) (there : Bool) (h : History)
      → sys.on_exists (path_exists cfg_path ∷ h) ≡ true
      → Extends
          (Looks cfg_path)
          h
          (install_if sys env parse print parent absolute twenty cfg_path
            (dry asks upgrade)
            exe
            there
            h).1
  unfolding install_if exists obtain_config set_linger
  install_if-quiet asks upgrade exe false h there = unchanged
  install_if-quiet asks upgrade exe true h there = rw there (
      Extends-trans (asked unchanged (path_exists cfg_path) sees) (
        Extends-proceed
          (use_existing sys env parse print parent absolute twenty cfg_path (dry asks upgrade)
            (path_exists cfg_path ∷ h))
          _ (use_existing-quiet asks upgrade (path_exists cfg_path ∷ h))
          (λ c h1.
            Extends-proceed
              (set_units sys env parse print parent absolute twenty cfg_path (dry asks upgrade) exe
                true h1)
              _ (set_units-quiet asks upgrade exe h1) (λ _ h2. note_bases-quiet c.bases h2))))

  -- Where the configuration is there, a dry run changes nothing: it asks for the version of
  -- multipass, whether the configuration and the bases are there, and for the configuration's text.
  pub install-Looks :
      (asks upgrade : Bool) (exe : Option Text) (h : History)
      → sys.on_exists (seen h) ≡ true
      → Extends
          (Looks cfg_path)
          h
          (install sys env parse print parent absolute twenty cfg_path (dry asks upgrade) exe h).1
  unfolding install available run
  install-Looks asks upgrade exe h there =
      Extends-trans (asked unchanged _ version) (install_if-quiet asks upgrade exe _ _ there)
