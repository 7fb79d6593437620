-- ===== src/Naming/Prefix.antt =====
-- Which names of src/naming.rs the prefix of a slot selects.
use vmfleet.Prelude.{ℕ, ◌<◌, ◌++◌, [], ◌∷◌, some, ◌≡◌, true, ◌↔◌, refl, sym, ap, ◌∙◌}
use mathlib.Core.List.{append_assoc}
use vmfleet.Prelude.Text.{
  Text, Lacks, starts_with, starts_with-append, starts_with-eq-true, strip_prefix,
  strip_prefix-append,
}
use vmfleet.Prelude.Decimal.{decimal, decimal-Lacks, decimal_inj, u32_mod, is_digit}
use vmfleet.Naming.{vm_prefix, vm_name, slot_vm_prefix, slot_of_vm}
use vmfleet.Naming.RoundTrip.{slot_of_vm-slot_vm_prefix}

append_inj_left : (p s t : Text) → p ++ s ≡ p ++ t → s ≡ t
append_inj_left p s t e =
    let same : some s ≡ some t =
      sym (strip_prefix-append p s) ∙ (ap (strip_prefix p) e ∙ strip_prefix-append p t) in
    cc

-- Texts that agree up to their first separator agree piece by piece.
pieces_agree :
    (sep : ℕ) (a b s t : Text)
    → Lacks sep a
    → Lacks sep b
    → a ++ sep ∷ s ≡ b ++ sep ∷ t
    → (a ≡ b) × (s ≡ t)
pieces_agree sep [] [] s t _ _ e = (refl, cc)
pieces_agree sep [] (d ∷ b) s t _ (p, _) e = absurd (p (cc))
pieces_agree sep (c ∷ a) [] s t (p, _) _ e = absurd (p (cc))
pieces_agree sep (c ∷ a) (d ∷ b) s t (_, h) (_, k) e =
    let (x, y) = pieces_agree sep a b s t h k (cc) in (cc, y)

decimal-NoDash : (n : ℕ) → Lacks b'-' (decimal n)
decimal-NoDash n = decimal-Lacks n b'-' (unfold is_digit in refl)

slot_vm_prefix-append :
    (pool : Text) (slot : ℕ) (r : Text)
    → slot_vm_prefix pool slot ++ r ≡ vm_prefix ++ (pool ++ b'-' ∷ (decimal slot ++ b'-' ∷ r))
unfolding slot_vm_prefix
slot_vm_prefix-append pool slot r = simp append_assoc

starts_with-own :
    (pool : Text) (slot ts pid : ℕ)
    → starts_with (slot_vm_prefix pool slot) (vm_name pool slot ts pid) ≡ true
starts_with-own pool slot ts pid =
    let rest = decimal ts ++ b'-' ∷ decimal pid in
    let e : vm_name pool slot ts pid ≡ slot_vm_prefix pool slot ++ rest =
      unfold vm_name in sym (slot_vm_prefix-append pool slot rest) in
    rw e (starts_with-append (slot_vm_prefix pool slot) rest)

same_slot :
    (pool pool' : Text) (slot slot' ts pid : ℕ) (r : Text)
    → Lacks b'-' pool
    → Lacks b'-' pool'
    → slot_vm_prefix pool slot ++ r ≡ vm_name pool' slot' ts pid
    → (pool ≡ pool') × (slot ≡ slot')
unfolding vm_name
same_slot pool pool' slot slot' ts pid r h k e =
    let tail = append_inj_left vm_prefix _ _ (sym (slot_vm_prefix-append pool slot r) ∙ e) in
    let (p, rest) = pieces_agree b'-' pool pool' _ _ h k tail in
    let (q, _) =
      pieces_agree b'-' (decimal slot) (decimal slot') _ _ (decimal-NoDash slot)
        (decimal-NoDash slot') rest in
    (p, decimal_inj slot slot' q)

-- A machine's name starts with the prefix of its own pool and slot, and, where neither pool's name
-- holds a dash, with the prefix of no other pool or slot.
pub starts_with-slot_vm_prefix :
    (pool pool' : Text) (slot slot' ts pid : ℕ)
    → Lacks b'-' pool
    → Lacks b'-' pool'
    → (starts_with (slot_vm_prefix pool slot) (vm_name pool' slot' ts pid) ≡ true)
      ↔ ((pool ≡ pool') × (slot ≡ slot'))
starts_with-slot_vm_prefix pool pool' slot slot' ts pid h k = (only, own)
  where
    only :
        starts_with (slot_vm_prefix pool slot) (vm_name pool' slot' ts pid) ≡ true
        → (pool ≡ pool') × (slot ≡ slot')
    only e =
        let (r, q) = starts_with-eq-true (slot_vm_prefix pool slot) _ e in
        same_slot pool pool' slot slot' ts pid r h k (sym q)

    own :
        (pool ≡ pool') × (slot ≡ slot')
        → starts_with (slot_vm_prefix pool slot) (vm_name pool' slot' ts pid) ≡ true
    own (p, s) = rw (p, s) (starts_with-own pool' slot' ts pid)

-- The machines of a pool whose name is another pool's name, a dash and a number start with the
-- prefix of that other pool's slot of this number, and this slot is read from their names with the
-- other pool's name; for a number that a u32 holds.
pub slot_of_vm_dashed :
    (pool : Text) (slot slot' ts pid : ℕ)
    → slot < u32_mod
    → let vm = vm_name (pool ++ b'-' ∷ decimal slot) slot' ts pid in
      (starts_with (slot_vm_prefix pool slot) vm ≡ true) × (slot_of_vm pool vm ≡ some slot)
slot_of_vm_dashed pool slot slot' ts pid h =
    let rest = decimal slot' ++ b'-' ∷ (decimal ts ++ b'-' ∷ decimal pid) in
    let vm = vm_name (pool ++ b'-' ∷ decimal slot) slot' ts pid in
    let e : vm ≡ slot_vm_prefix pool slot ++ rest =
      unfold vm_name slot_vm_prefix in simp append_assoc in
    (
      rw e (starts_with-append (slot_vm_prefix pool slot) rest),
      rw e (slot_of_vm-slot_vm_prefix pool slot rest h),
    )
