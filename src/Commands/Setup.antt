-- ===== src/Commands/Setup.antt =====
-- `prompt_config` of src/commands.rs: the dialogue that makes a first configuration.
use vmfleet.Prelude.{ℕ, ◌++◌, [], ◌∷◌, Bool, true, false, Option, some, none, Result, ok, err}
use vmfleet.Prelude.Text.{Text, codes, strip_prefix}
use vmfleet.Prelude.Words.{trim}
use vmfleet.Prelude.Act.{◌>>=◌, ◌>>◌, pure, fail}
use vmfleet.World.{
  System, Io, config_failed, io_failed, change, exists, input_text, input_number, confirmed,
  make_dir, write_file, set_private,
}
use vmfleet.Paths.{join, config_dir}
use vmfleet.Config.{
  Config, ConfigError, Base, Pool, current_version, default_admission, default_supervisor,
  default_worker,
}
use vmfleet.Config.Validate.{validate}

-- `?` on a change of the file system.
unfoldable pub must : Bool → Io (Unit {0})
must true = pure tt
must false = fail io_failed

-- A scope that starts with `@` is an organisation, else it is a repository.
scope_of_input : Text → Option Text → Option Text × Option Text
scope_of_input scope none = (some scope, none)
scope_of_input scope (some org) = (none, some org)

first_base : Text → Base
first_base image = record {
  image = image;
  name = codes "vmfleet-base";
  disk = codes "80G";
  cpus = 4;
  memory = codes "8G";
  setup_scripts = [];
  runner_version = codes "latest";
}

first_pool : Text → ℕ → ℕ → Pool
first_pool label warm cap = record {
  name = codes "small";
  labels = label ∷ [];
  cpus = 4;
  memory = codes "4GiB";
  swap = some (codes "8G");
  min_warm = warm;
  cap = cap;
  slot_base = 101;
  base = none;
}

checked_config : {F : Type 0} → Config F → Result ConfigError (Unit {0}) → Io (Config F)
checked_config c (ok _) = pure c
checked_config c (err e) = fail config_failed

-- `Path::parent` and the default of `psi_max` are given.
module _ {F : Type 0} (sys : System) (env : Text → Option Text) (parent : Text → Option Text)
    (twenty : F) where
  make_parent : Option Text → Io (Unit {0})
  unfolding must
  make_parent none = pure tt
  make_parent (some dir) = do made ← change sys (make_dir dir); must made

  -- A token is asked for and stored where the file is missing.
  unfoldable pub store_token : Text → Bool → Io (Unit {0})
  unfolding make_parent must
  store_token token_file true = pure tt
  store_token token_file false = do
    tok ← input_text sys (codes "Paste PAT (stored 0600)")
    make_parent (parent token_file)
    written ← change sys (write_file token_file (trim tok))
    must written
    change sys (set_private token_file)
    pure tt

  unfoldable pub prompt_config : Io (Config F)
  unfolding scope_of_input first_base first_pool checked_config store_token
  prompt_config = do
    scope ← input_text sys (codes "GitHub repo (owner/name) or org (@org)")
    token_file ←
        input_text sys (codes "Path to PAT token file " ++ join (config_dir env) (codes "token"))
    there ← exists sys token_file
    store_token token_file there
    vault ← input_text sys (codes "Multipass vault path (disk gate)")
    use_jit ← confirmed sys (codes "Use JIT runner registration?")
    cap ← input_number sys (codes "small pool: max runners")
    warm ← input_number sys (codes "small pool: warm (min idle)")
    label ← input_text sys (codes "small pool: runner label")
    image ← input_text sys (codes "base VM image")
    let who = scope_of_input scope (strip_prefix (codes "@") scope)
    let cfg : Config F = record {
      version = current_version;
      github = record {
        repo = who.0;
        org = who.1;
        token_file = token_file;
        runner_group_id = 1;
        api_base = codes "https://api.github.com";
      };
      storage = record { vault_path = vault };
      admission = default_admission twenty;
      bases = first_base image ∷ [];
      pools = first_pool label warm cap ∷ [];
      supervisor = record default_supervisor { use_jit = use_jit };
      worker = default_worker;
    }
    checked_config cfg (validate cfg)
