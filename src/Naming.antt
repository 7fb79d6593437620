-- ===== src/Naming.antt =====
-- src/naming.rs, and `slot_from_unit` of src/supervisor.rs: the names of virtual machines and of
-- worker units, and the slots read back from them.
pub mod RoundTrip
pub mod Prefix
use vmfleet.Prelude.{ℕ, ◌++◌, [], ◌∷◌, Option, and_then}
use vmfleet.Prelude.Text.{Text, codes, strip_prefix, strip_suffix, first_piece}
use vmfleet.Prelude.Decimal.{decimal, parse_u32}

abbrev pub vm_prefix : Text
vm_prefix = codes "vmfleet-"

-- vmfleet-<pool>-<slot>-<ts>-<pid>
unfoldable pub vm_name : Text → ℕ → ℕ → ℕ → Text
vm_name pool slot ts pid =
    vm_prefix ++ (pool ++ b'-' ∷ (decimal slot ++ b'-' ∷ (decimal ts ++ b'-' ∷ decimal pid)))

unfoldable pub slot_vm_prefix : Text → ℕ → Text
slot_vm_prefix pool slot = vm_prefix ++ (pool ++ b'-' ∷ (decimal slot ++ b'-' ∷ []))

unfoldable pub worker_unit : ℕ → Text
worker_unit slot = codes "vmfleet-worker-" ++ (decimal slot ++ codes ".service")

abbrev pub worker_unit_glob : Text
worker_unit_glob = codes "vmfleet-worker-*.service"

abbrev pub supervisor_unit : Text
supervisor_unit = codes "vmfleet-supervisor.service"

abbrev pub gc_service : Text
gc_service = codes "vmfleet-gc.service"

abbrev pub gc_timer : Text
gc_timer = codes "vmfleet-gc.timer"

unfoldable pub slot_of_vm : Text → Text → Option ℕ
slot_of_vm pool vm =
    and_then (strip_prefix (vm_prefix ++ (pool ++ b'-' ∷ [])) vm)
      (λ rest. parse_u32 (first_piece b'-' rest))

-- `slot_from_unit` of the supervisor; `gc` repeats the same chain of calls.
unfoldable pub slot_from_unit : Text → Option ℕ
slot_from_unit unit =
    and_then (strip_prefix (codes "vmfleet-worker-") unit)
      (λ rest. and_then (strip_suffix (codes ".service") rest) parse_u32)
