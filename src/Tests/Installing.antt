-- ===== src/Tests/Installing.antt =====
-- The command `install` of src/commands.rs at the sample host.
use vmfleet.Prelude.{ℕ, [], true, false, Option, some, none, ok, ◌≡◌, refl}
use vmfleet.Prelude.Text.{
  Text, codes, text_eq, text_mem, text_le, strip_prefix, starts_with, ends_with,
}
use vmfleet.Prelude.Words.{trim}
use vmfleet.Prelude.Act.{OnOk}
use vmfleet.World.{Extends, run, succeeded, exists, read_text, checked, change}
use vmfleet.Config.{Config}
use vmfleet.Commands.Install.{
  install, obtain_config, use_existing, set_linger, install_units, make_unit_dir, write_unit,
  install_gc_timer, start_units, note_bases,
}
use vmfleet.Commands.Setup.{must}
use vmfleet.Multipass.{available, vm_exists}
use vmfleet.Systemd.{linger_enabled, ensure_linger, daemon_reload, enable_now, restart}
use vmfleet.Config.{scope_path, valid_name, migrate}
use vmfleet.Config.Validate.{
  load, from_text, from_parsed, validated, expand_paths, validate, check_bases, check_pools,
  check_pool, check_windows, range_le, base_missing,
}
use vmfleet.Prelude.Sort.{sort}
use vmfleet.Paths.{expand, join, home}
use vmfleet.Commands.Install.Dry.{dry, Looks, install-Looks}
use vmfleet.Commands.Install.Started.{for_real, UnitsStand, install-UnitsStand}
use vmfleet.Tests.Sample.{fleet, host}

abbrev no_env : Text → Option Text
no_env name = none

abbrev parse : Text → Option (Config ℕ)
parse text = some fleet

abbrev print : Config ℕ → Option Text
print cfg = some []

abbrev parent : Text → Option Text
parent path = none

abbrev absolute : Text → Text
absolute path = path

abbrev cfg_path : Text
cfg_path = codes "/etc/vmfleet.toml"

abbrev exe : Option Text
exe = some (codes "/usr/bin/vmfleet")

install-Looks_example :
    Extends
      (Looks cfg_path)
      []
      (install host no_env parse print parent absolute 20 cfg_path (dry true true) exe []).1
install-Looks_example =
    install-Looks host no_env parse print parent absolute 20 cfg_path true true exe [] refl

install-UnitsStand_example :
    OnOk
      (install host no_env parse print parent absolute 20 cfg_path (for_real false true) exe [])
      (λ _ end. UnitsStand host no_env parse print parent absolute 20 cfg_path exe true end)
install-UnitsStand_example =
    install-UnitsStand host no_env parse print parent absolute 20 cfg_path false true exe []

-- The upgrade of the sample host succeeds.
installs :
    (install host no_env parse print parent absolute 20 cfg_path (for_real false true) exe []).0
    ≡ ok tt
unfolding install available run succeeded exists obtain_config use_existing read_text load from_text
    from_parsed validated expand_paths validate scope_path check_bases check_pools check_pool
    check_windows range_le valid_name codes text_eq base_missing text_mem text_le sort expand
    strip_prefix join home starts_with ends_with migrate set_linger linger_enabled ensure_linger
    checked install_units make_unit_dir must change write_unit install_gc_timer start_units
    daemon_reload enable_now restart note_bases vm_exists trim
installs = refl
