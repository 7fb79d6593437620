-- ===== src/Tests/Teardown.antt =====
-- The commands `uninstall` and `build-base` of src/commands.rs at the sample host.
use vmfleet.Prelude.{
  ℕ, [], ◌∷◌, List, true, false, Option, some, none, ok, err, ◌≡◌, refl, All, Result, subst,
  if◌then◌else◌,
}
use vmfleet.Prelude.Text.{
  Text, codes, split, starts_with, ends_with, text_eq, text_mem, text_le, strip_prefix,
}
use vmfleet.Paths.{expand, join, home}
use vmfleet.Prelude.Words.{trim, lines}
use vmfleet.Prelude.Act.{OnOk}
use vmfleet.World.{System, CmdOut, History, Extends, run, checked, read_file, read_text, succeeded}
use vmfleet.Naming.{vm_prefix}
use vmfleet.Config.{Config, ConfigError, GitHub, unreadable_token, scope_path, valid_name}
use vmfleet.Config.Validate.{
  token, load, from_text, from_parsed, validated, expand_paths, validate, check_bases, check_pools,
  check_pool, check_windows, range_le, base_missing,
}
use vmfleet.Prelude.Sort.{sort}
use vmfleet.Github.{Client, IsRemote}
use vmfleet.Multipass.{
  VmState, list, list_prefixed, parse_list_csv, parse_rows, columns, parse_state,
}
use vmfleet.Multipass.Listing.{list_command}
use vmfleet.Commands.Uninstall.{UninstallOpts, uninstall, config_token, needs_file, load_config}
use vmfleet.Commands.Uninstall.Spares.{Uninstalls, uninstall-Uninstalls}
use vmfleet.Commands.Uninstall.Unloaded.{
  AsksDelete, uninstall_unloaded, uninstall-Fails, Fails, Reads,
}
use vmfleet.Commands.Uninstall.Stopped.{fleet_stopped}
use vmfleet.Commands.BuildBase.{build_bases}
use vmfleet.World.Steps.{InOrder}
use vmfleet.Commands.BuildBase.Built.{build_steps, build_bases-InOrder}
use vmfleet.Tests.Sample.{noble, fleet, host}
use vmfleet.Tests.Server.{endpoint, json}
use vmfleet.Github.Calls.{client_of}
use vmfleet.Github.Calls.Confined.{client_of-IsRemote}

abbrev no_env : Text → Option Text
no_env name = none

abbrev parse : Text → Option (Config ℕ)
parse text = some fleet

abbrev connect : GitHub → Text → Result ConfigError Client
connect gh t = ok (client_of host json endpoint 5)

abbrev opts : UninstallOpts
opts = record { purge_all = false; yes = true }

abbrev cfg_path : Text
cfg_path = codes "/etc/vmfleet.toml"

connect-IsRemote : (gh : GitHub) (t : Text) (c : Client) → connect gh t ≡ ok c → IsRemote c
connect-IsRemote gh t c e =
    let same : client_of host json endpoint 5 ≡ c = cc in
    subst IsRemote same (client_of-IsRemote host json endpoint 5)

uninstall-Uninstalls_example :
    Extends
      (Uninstalls host no_env parse connect cfg_path opts)
      []
      (uninstall host no_env parse connect cfg_path opts []).1
uninstall-Uninstalls_example =
    uninstall-Uninstalls host no_env parse connect cfg_path opts connect-IsRemote []

-- A host whose listing has the base machine.
abbrev listing : CmdOut
listing = record {
  status = some 0;
  stdout = codes "Name,State,IPv4,Image\nvmfleet-base,Stopped,--,Ubuntu";
  stderr = [];
}

abbrev with_base : System
with_base = record host { on_command = λ h. some listing }

abbrev base_only : List (Text × VmState)
base_only = (codes "vmfleet-base", VmState.stopped) ∷ []

listed : (h : History) → list_prefixed with_base vm_prefix h ≡ (ok base_only, list_command ∷ h)
unfolding codes list_prefixed list checked run succeeded parse_list_csv parse_rows columns split
    lines parse_state trim starts_with text_eq
listed h = refl

abbrev no_parse : Text → Option (Config ℕ)
no_parse text = none

unloaded : (h : History) → (load_config with_base no_env no_parse connect cfg_path h).0 ≡ ok none
unfolding load_config load from_text from_parsed read_text
unloaded h = refl

uninstall_unloaded_example :
    ((uninstall with_base no_env no_parse connect cfg_path opts []).0 ≡ ok tt)
    × All
        (λ vm.
          AsksDelete with_base no_env no_parse connect vm.0
            (list_command ∷ read_file cfg_path ∷ fleet_stopped with_base no_env [])
            (uninstall with_base no_env no_parse connect cfg_path opts []).1)
        base_only
uninstall_unloaded_example =
    uninstall_unloaded with_base no_env no_parse connect cfg_path opts []
      (list_command ∷ read_file cfg_path ∷ fleet_stopped with_base no_env []) base_only refl refl
      (unloaded _) (listed _)

abbrev only_config : History → Option Text
only_config (read_file path ∷ h) = if text_eq path cfg_path then some [] else none
only_config h = none

-- A host whose file of the token is gone.
abbrev no_token : System
no_token = record host { on_read = only_config }

loads : (h : History) → (load_config no_token no_env parse connect cfg_path h).0 ≡ ok (some fleet)
unfolding load_config load from_text from_parsed validated expand_paths validate scope_path
    check_bases check_pools check_pool check_windows range_le valid_name read_text codes text_eq
    base_missing text_mem text_le sort expand strip_prefix join home starts_with ends_with
loads h = refl

fails :
    (h : History)
    → (config_token no_token no_env parse connect fleet h).0 ≡ ok (err unreadable_token)
unfolding config_token needs_file token read_text codes text_eq
fails h = refl

uninstall-Fails_example :
    Fails no_token no_env parse connect
      (Reads no_token no_env parse connect)
      (fleet_stopped no_token no_env [])
      (uninstall no_token no_env parse connect cfg_path opts [])
uninstall-Fails_example =
    uninstall-Fails no_token no_env parse connect cfg_path opts fleet unreadable_token [] refl
      (loads _) (fails _)

build_bases-InOrder_example :
    OnOk
      (build_bases host (noble ∷ []) (codes "/etc") true [])
      (λ _ h'. InOrder host (build_steps (codes "/etc") (noble ∷ [])) [] h')
build_bases-InOrder_example = build_bases-InOrder host (noble ∷ []) (codes "/etc") true []
