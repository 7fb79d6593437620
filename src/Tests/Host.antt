-- ===== src/Tests/Host.antt =====
-- The lock, the machines and the configuration at the sample host.
use vmfleet.Prelude.{ℕ, ◌≤◌, ◌+◌, [], ◌∷◌, false, Option, some, none, ok, err, ◌≡◌, ◌≢◌, ◌↔◌, refl}
use vmfleet.Prelude.Text.{Text, codes, text_eq, text_mem, text_le}
use vmfleet.Prelude.Sort.{sort}
use vmfleet.Prelude.Act.{OnOk}
use vmfleet.World.{read_clock, read_file, Extends, unfinished}
use vmfleet.Config.{Config, valid_name, scope_path}
use vmfleet.Config.Load.{IsLoaded, load-IsLoaded}
use vmfleet.Config.Validate.{
  from_text, from_parsed, validated, expand_paths, check_bases, check_pools, check_pool,
  check_windows, range_le, base_missing, validate, load,
}
use vmfleet.Config.Sound.{IsRunnable, validate-IsRunnable}
use vmfleet.Multipass.{purge, running}
use vmfleet.Multipass.Purge.{Deleted, TearsDown, purge-Deleted}
use vmfleet.Commands.Gc.{purge_orphans}
use vmfleet.Commands.Gc.Spares.{ClearsOrphan, purge_orphans-ClearsOrphan}
use vmfleet.Commands.Scale.{scale, Written, Access, scale-Written}
use vmfleet.Admission.{nanos, decide, lock_loop, acquire}
use vmfleet.Admission.Decision.{decide-eq-none}
use vmfleet.Admission.Acquire.{Held, SampledClear, acquire-Held}
use vmfleet.Admission.LockWait.{lock_loop-finishes}
use vmfleet.Tests.Sample.{noble, small, large, fleet, whole_floats, host, host-IsClock}

abbrev vault : Text
vault = codes "/vault"

abbrev lock_path : Text
lock_path = codes "/run/lock"

abbrev orphan : Text
orphan = codes "vmfleet-small-101-1700-42"

fleet-validated : validate fleet ≡ ok tt
unfolding validate scope_path check_bases check_pools check_pool check_windows range_le valid_name
    base_missing codes text_eq text_mem text_le sort
fleet-validated = refl

validate-IsRunnable_example : IsRunnable fleet
validate-IsRunnable_example = validate-IsRunnable fleet fleet-validated

purge-Deleted_example :
    OnOk (purge host orphan []) (λ _ h'. Deleted host orphan h')
    × Extends (TearsDown orphan) [] (purge host orphan []).1
purge-Deleted_example = purge-Deleted host orphan []

purge_orphans-ClearsOrphan_example :
    Extends
      (ClearsOrphan (noble ∷ []) (small ∷ large ∷ []) (102 ∷ []))
      []
      (purge_orphans host
        (noble ∷ [])
        (small ∷ large ∷ [])
        (102 ∷ [])
        ((orphan, running) ∷ (codes "vmfleet-base", running) ∷ [])
        []).1
purge_orphans-ClearsOrphan_example =
    purge_orphans-ClearsOrphan host (noble ∷ []) (small ∷ large ∷ []) (102 ∷ [])
      ((orphan, running) ∷ (codes "vmfleet-base", running) ∷ []) []

acquire-Held_example :
    OnOk
      (acquire whole_floats host fleet.admission vault 3 (some (codes "/run")) lock_path [])
      (λ _ h'.
        Held whole_floats host fleet.admission vault lock_path h'
        × SampledClear whole_floats host fleet.admission vault h')
acquire-Held_example =
    acquire-Held whole_floats host fleet.admission vault 3 (some (codes "/run")) lock_path []

lock_loop-finishes_example :
    (lock_loop whole_floats host fleet.admission vault 602 lock_path
      (host.on_clock (read_clock ∷ []) + nanos 1200)
      (read_clock ∷ [])).0
    ≢ err unfinished
lock_loop-finishes_example =
    lock_loop-finishes whole_floats host fleet.admission vault host-IsClock lock_path []

decide-eq-none_example :
    (decide whole_floats 8192 3 100 fleet.admission ≡ none)
    ↔ ((4096 ≤ 8192) × (whole_floats.ge 3 20 ≡ false) × (30 ≤ 100))
decide-eq-none_example = decide-eq-none whole_floats 8192 3 100 fleet.admission

-- A parser that gives the sample configuration, and a printer for the second version of it.
abbrev parse : Text → Option (Config ℕ)
parse text = some fleet

abbrev print : Config ℕ → Option Text
print c = some (codes "version = 1")

abbrev parent : Text → Option Text
parent path = some (codes "/etc")

abbrev env : Text → Option Text
env name = none

scale-Written_example :
    let loaded = load env (λ _. host.on_read (read_file lock_path ∷ [])) parse lock_path in
    let x = scale host print parent env parse lock_path (codes "small") (some 2) none [] in
    OnOk x (λ _ h'. Written host print parent loaded lock_path (codes "small") (some 2) none h')
    × Extends (Access host print parent loaded lock_path (codes "small") (some 2) none) [] x.1
scale-Written_example =
    scale-Written host print parent env parse lock_path (codes "small") (some 2) none []

abbrev disk : Text → Option Text
disk path = some (codes "version = 1")

fleet-loaded : load env disk parse (codes "c.toml") ≡ ok (expand_paths env fleet)
unfolding load from_text from_parsed validated expand_paths validate scope_path check_bases
    check_pools check_pool check_windows range_le valid_name base_missing codes text_eq text_mem
    text_le sort
fleet-loaded = refl

load-IsLoaded_example : IsLoaded env disk parse (codes "c.toml") (expand_paths env fleet)
load-IsLoaded_example = load-IsLoaded env disk parse (codes "c.toml") fleet-loaded
