-- ===== src/Naming/RoundTrip.antt =====
-- The slot of src/naming.rs's names is read back from them.
use vmfleet.Prelude.{ℕ, ◌<◌, ◌++◌, [], ◌∷◌, some, ◌≡◌, refl}
use mathlib.Core.List.{append_assoc}
use vmfleet.Prelude.Text.{Text, codes, strip_prefix-append, strip_suffix-append, first_piece_lem}
use vmfleet.Prelude.Decimal.{decimal, decimal-Lacks, parse_u32-decimal, u32_mod, is_digit}
use vmfleet.Naming.{vm_prefix, vm_name, slot_vm_prefix, worker_unit, slot_of_vm, slot_from_unit}

slot_vm_prefix-append :
    (pool : Text) (slot : ℕ) (r : Text)
    → slot_vm_prefix pool slot ++ r
      ≡ (vm_prefix ++ (pool ++ b'-' ∷ [])) ++ (decimal slot ++ b'-' ∷ r)
unfolding slot_vm_prefix
slot_vm_prefix-append pool slot r = simp append_assoc

-- The slot is read from any text with the slot's prefix.
pub slot_of_vm-slot_vm_prefix :
    (pool : Text) (slot : ℕ) (r : Text)
    → slot < u32_mod
    → slot_of_vm pool (slot_vm_prefix pool slot ++ r) ≡ some slot
unfolding slot_of_vm
slot_of_vm-slot_vm_prefix pool slot r h =
    rw (slot_vm_prefix-append pool slot r, slot_of_vm)
      (rw (strip_prefix-append (vm_prefix ++ (pool ++ b'-' ∷ [])) (decimal slot ++ b'-' ∷ r)) (
        rw
          (first_piece_lem b'-' (decimal slot) r
            (decimal-Lacks slot b'-' (unfold is_digit in refl)))
          (parse_u32-decimal slot h)))

pub vm_name-slot_vm_prefix :
    (pool : Text) (slot ts pid : ℕ)
    → vm_name pool slot ts pid ≡ slot_vm_prefix pool slot ++ (decimal ts ++ b'-' ∷ decimal pid)
unfolding vm_name slot_vm_prefix
vm_name-slot_vm_prefix pool slot ts pid = simp append_assoc

-- The slot of a machine's name, read with the name of the pool that it was made for, is the slot
-- that it was made with, for every slot that a u32 holds and any text as the pool's name.
pub slot_of_vm-vm_name :
    (pool : Text) (slot ts pid : ℕ)
    → slot < u32_mod
    → slot_of_vm pool (vm_name pool slot ts pid) ≡ some slot
slot_of_vm-vm_name pool slot ts pid h =
    rw (vm_name-slot_vm_prefix pool slot ts pid)
      (slot_of_vm-slot_vm_prefix pool slot (decimal ts ++ b'-' ∷ decimal pid) h)

-- The slot of a worker unit's name is the slot that the name was made with, for every slot that a
-- u32 holds.
pub slot_from_unit-worker_unit :
    (slot : ℕ) → slot < u32_mod → slot_from_unit (worker_unit slot) ≡ some slot
unfolding slot_from_unit worker_unit
slot_from_unit-worker_unit slot h =
    rw (strip_prefix-append (codes "vmfleet-worker-") (decimal slot ++ codes ".service"))
      (rw (strip_suffix-append (codes ".service") (decimal slot)) (parse_u32-decimal slot h))
