-- ===== src/Paths.antt =====
-- src/paths.rs: the files of the program, below the directories that the environment names. A
-- path is its text; `env` looks a variable up.
use vmfleet.Prelude.{ℕ, ◌++◌, [], ◌∷◌, Option, some, none, if◌then◌else◌}
use vmfleet.Prelude.Text.{Text, codes, text_eq, strip_prefix, starts_with, ends_with}
use vmfleet.Prelude.Decimal.{decimal}

abbrev slash : Text
slash = codes "/"

-- `Path::join`: an absolute path replaces the base.
unfoldable pub join : Text → Text → Text
join base rest =
    if starts_with slash rest
    then rest
    else if text_eq base []
    then rest
    else if ends_with slash base
    then base ++ rest
    else base ++ b'/' ∷ rest

module _ (env : Text → Option Text) where
  abbrev pub or_path : Option Text → Text → Text
  or_path none fallback = fallback
  or_path (some p) fallback = p

  unfoldable pub home : Text
  home = or_path (env (codes "HOME")) (codes "/root")

  expand_home : Text → Option Text → Text
  expand_home p none = p
  expand_home p (some rest) = join home rest

  -- A leading `~` or `$HOME` of a path in the configuration.
  unfoldable pub expand : Text → Text
  unfolding expand_home
  expand p = if text_eq p (codes "~") then home else elim (strip_prefix (codes "~/") p) [
    | some rest ↦ join home rest
    | none ↦ expand_home p (strip_prefix (codes "$HOME/") p)
  ]

  unfoldable pub xdg : Text → Text → Text
  xdg var fallback = or_path (env var) (join home fallback)

  unfoldable pub config_dir : Text
  config_dir = join (xdg (codes "XDG_CONFIG_HOME") (codes ".config")) (codes "vmfleet")

  unfoldable pub config_file : Text
  config_file = join config_dir (codes "vmfleet.toml")

  unfoldable pub state_dir : Text
  state_dir = join (xdg (codes "XDG_DATA_HOME") (codes ".local/share")) (codes "vmfleet")

  unfoldable pub status_file : Text
  status_file = join state_dir (codes "status.json")

  unfoldable pub metrics_file : Text
  metrics_file = join state_dir (codes "vmfleet.prom")

  unfoldable pub admission_lock : Text
  admission_lock = join state_dir (codes "admission.lock")

  unfoldable pub slot_state : ℕ → Text
  slot_state slot = join (join state_dir (codes "slots")) (decimal slot)

  unfoldable pub systemd_user_dir : Text
  systemd_user_dir =
      join (join (xdg (codes "XDG_CONFIG_HOME") (codes ".config")) (codes "systemd")) (codes "user")
