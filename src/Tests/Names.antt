-- ===== src/Tests/Names.antt =====
-- The names of src/naming.rs at concrete pools.
use vmfleet.Prelude.{Bool, all, not, ◌==◌, [], ℕ, ◌∷◌, ◌++◌, some, ◌≡◌, ◌↔◌, true, refl, arith}
use vmfleet.Prelude.Text.{Text, codes, starts_with, Lacks}
use vmfleet.Prelude.Decimal.{decimal}
use vmfleet.Naming.{vm_name, slot_vm_prefix, slot_of_vm, slot_from_unit, worker_unit}
use vmfleet.Naming.RoundTrip.{slot_of_vm-vm_name, slot_from_unit-worker_unit}
use vmfleet.Naming.Prefix.{starts_with-slot_vm_prefix, slot_of_vm_dashed}

abbrev small : Text
small = codes "small"

vm_name_run : vm_name small 101 1700 42 ≡ codes "vmfleet-small-101-1700-42"
unfolding vm_name codes decimal
vm_name_run = refl

worker_unit_run : worker_unit 7 ≡ codes "vmfleet-worker-7.service"
unfolding worker_unit codes decimal
worker_unit_run = refl

slot_of_vm-vm_name_example : slot_of_vm small (vm_name small 101 1700 42) ≡ some 101
slot_of_vm-vm_name_example = slot_of_vm-vm_name small 101 1700 42 (omega arith)

slot_from_unit-worker_unit_example : slot_from_unit (worker_unit 101) ≡ some 101
slot_from_unit-worker_unit_example = slot_from_unit-worker_unit 101 (omega arith)

abbrev large : Text
large = codes "large"

abbrev first_slot : ℕ
first_slot = 10

abbrev second_slot : ℕ
second_slot = 101

has_no : ℕ → Text → Bool
has_no c s = all (λ d. not (d == c)) s

has_no-Lacks : (c : ℕ) (s : Text) → has_no c s ≡ true → Lacks c s
unfolding has_no
has_no-Lacks c [] h = tt
has_no-Lacks c (d ∷ s) h = (ground arith, has_no-Lacks c s (ground arith))

small-Lacks : Lacks b'-' small
unfolding has_no codes
small-Lacks = has_no-Lacks b'-' small refl

large-Lacks : Lacks b'-' large
unfolding has_no codes
large-Lacks = has_no-Lacks b'-' large refl

starts_with-slot_vm_prefix_example :
    (starts_with (slot_vm_prefix small first_slot) (vm_name large second_slot 1700 42) ≡ true)
    ↔ ((small ≡ large) × (first_slot ≡ second_slot))
starts_with-slot_vm_prefix_example =
    starts_with-slot_vm_prefix small large first_slot second_slot 1700 42 small-Lacks large-Lacks

slot_of_vm_dashed_example :
    let vm = vm_name (small ++ b'-' ∷ decimal 101) 7 1700 42 in
    (starts_with (slot_vm_prefix small 101) vm ≡ true) × (slot_of_vm small vm ≡ some 101)
slot_of_vm_dashed_example = slot_of_vm_dashed small 101 7 1700 42 (omega arith)
