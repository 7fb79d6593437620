-- ===== src/Systemd.antt =====
-- src/systemd.rs: the wrappers of `systemctl --user`, `systemd-run` and `loginctl`.
use vmfleet.Prelude.{
  ◌++◌, List, [], ◌∷◌, Bool, Option, some, none, Result, ok, err, filter, filter_map, false,
}
use vmfleet.Prelude.Text.{Text, codes, ends_with, text_eq}
use vmfleet.Prelude.Words.{lines, split_whitespace, trim}
use vmfleet.Prelude.Act.{◌>>=◌, ◌>>◌, pure, try_}
use vmfleet.World.{System, CmdOut, Io, Failure, run, checked}

abbrev pub systemctl : Text
systemctl = codes "systemctl"

abbrev head? : List Text → Option Text
head? [] = none
head? (w ∷ ws) = some w

-- The first word of each line, where it ends in `.service`.
unfoldable pub service_names : Text → List Text
service_names out =
    filter (ends_with (codes ".service")) (filter_map (λ l. head? (split_whitespace l)) (lines out))

unfoldable pub setenv_args : List (Text × Text) → List Text
setenv_args [] = []
setenv_args ((k, v) ∷ more) = (codes "--setenv=" ++ (k ++ b'=' ∷ v)) ∷ setenv_args more

-- The arguments of `systemd-run`.
unfoldable pub transient_args : Text → List (Text × Text) → Text → List Text → List Text
unfolding setenv_args
transient_args unit setenvs program prog_args =
    codes "--user"
    ∷ (codes "--unit=" ++ unit)
    ∷ codes "--quiet"
    ∷ codes "--collect"
    ∷ codes "-p"
    ∷ codes "KillMode=control-group"
    ∷ codes "-p"
    ∷ codes "TimeoutStopSec=120"
    ∷ (setenv_args setenvs ++ program ∷ prog_args)

module _ (sys : System) where
  unfoldable pub reset_failed : Text → Io (Unit {0})
  reset_failed unit = do
    try_ (run sys systemctl (codes "--user" ∷ codes "reset-failed" ∷ unit ∷ []) (some 10))
    pure tt

  unfoldable pub run_transient : Text → List (Text × Text) → Text → List Text → Io (Unit {0})
  unfolding transient_args
  run_transient unit setenvs program prog_args = do
    reset_failed unit
    checked sys (codes "systemd-run") (transient_args unit setenvs program prog_args) (some 30)
    pure tt

  unfoldable pub list_args : Text → Text → List Text
  list_args pattern states =
      codes "--user"
      ∷ codes "list-units"
      ∷ pattern
      ∷ codes "--no-legend"
      ∷ codes "--plain"
      ∷ states
      ∷ []

  names_or_none : Result Failure CmdOut → List Text
  names_or_none (err e) = []
  names_or_none (ok o) = service_names o.stdout

  unfoldable pub list_failed : Text → Io (List Text)
  unfolding list_args names_or_none
  list_failed pattern = do
    r ← try_ (run sys systemctl (list_args pattern (codes "--state=failed")) (some 15))
    pure (names_or_none r)

  -- A failed command is an error here; callers take it for no units.
  unfoldable pub list_active : Text → Io (List Text)
  unfolding list_args
  list_active pattern = do
    o ← run sys systemctl (list_args pattern (codes "--state=active,activating")) (some 15)
    pure (service_names o.stdout)

  unfoldable pub stop : Text → Io (Unit {0})
  stop unit = do
    try_ (run sys systemctl (codes "--user" ∷ codes "stop" ∷ unit ∷ []) (some 75))
    try_ (run sys systemctl (codes "--user" ∷ codes "reset-failed" ∷ unit ∷ []) (some 10))
    pure tt

  unfoldable pub daemon_reload : Io (Unit {0})
  daemon_reload = do
    checked sys systemctl (codes "--user" ∷ codes "daemon-reload" ∷ []) (some 20)
    pure tt

  unfoldable pub enable_now : Text → Io (Unit {0})
  enable_now unit = do
    checked sys systemctl (codes "--user" ∷ codes "enable" ∷ codes "--now" ∷ unit ∷ []) (some 30)
    pure tt

  unfoldable pub restart : Text → Io (Unit {0})
  restart unit = do
    checked sys systemctl (codes "--user" ∷ codes "restart" ∷ unit ∷ []) (some 30)
    pure tt

  unfoldable pub disable_now : Text → Io (Unit {0})
  disable_now unit = do
    try_
        (run sys systemctl (codes "--user" ∷ codes "disable" ∷ codes "--now" ∷ unit ∷ []) (some 30))
    pure tt

  unfoldable pub ensure_linger : Text → Io (Unit {0})
  ensure_linger user = do
    checked sys (codes "loginctl") (codes "enable-linger" ∷ user ∷ []) (some 15)
    pure tt

  says_yes : Result Failure CmdOut → Bool
  says_yes (err e) = false
  says_yes (ok o) = text_eq (trim o.stdout) (codes "yes")

  unfoldable pub linger_enabled : Text → Io Bool
  unfolding says_yes
  linger_enabled user = do
    r ← try_ (
        run sys (codes "loginctl")
          (codes "show-user" ∷ user ∷ codes "--property=Linger" ∷ codes "--value" ∷ []) (some 10))
    pure (says_yes r)
