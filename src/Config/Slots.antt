-- ===== src/Config/Slots.antt =====
-- The slots that the pools of src/config.rs own: ranges that pass the test of `validate` on the
-- sorted list have no slot in common, whichever two are taken.
use vmfleet.Prelude.{
  ◌&&◌, refl, ℕ, zero, suc, ◌+◌, ◌-◌, ◌≤◌, ◌<◌, List, [], ◌∷◌, true, false, ok, ◌≡◌, ◌⊎◌, inl, inr,
  arith, All, contains, Bool-cases,
}
use vmfleet.Prelude.Text.{text_le_total, text_le_trans}
use vmfleet.Prelude.Sort.{sort, sort-IsSorted, IsSorted, Pairs, Pairs-sort_inv}
use vmfleet.Config.Types.{Pool, range_from, slots, slot_end}
use vmfleet.Config.Validate.{SlotRange, range_of, range_le, check_windows}

-- One range ends before the other begins.
abbrev pub AreApart : SlotRange → SlotRange → Type 0
AreApart a b = (a.upto ≤ b.from) ⊎ (b.upto ≤ a.from)

AreApart-sym : (a b : SlotRange) → AreApart a b → AreApart b a
AreApart-sym a b (inl h) = inr h
AreApart-sym a b (inr h) = inl h

range_le_total : (a b : SlotRange) → range_le a b ≡ false → range_le b a ≡ true
unfolding range_le
range_le_total a b h = ground (arith, text_le_total a.owner b.owner)

range_le_trans :
    (a b c : SlotRange) → range_le a b ≡ true → range_le b c ≡ true → range_le a c ≡ true
unfolding range_le
range_le_trans a b c h k = ground (arith, text_le_trans a.owner b.owner c.owner)

range_le_from : (a b : SlotRange) → range_le a b ≡ true → a.from ≤ b.from
unfolding range_le
range_le_from a b h = ground arith

All-from_mono :
    (a b : SlotRange) (rs : List SlotRange)
    → a.upto ≤ b.from
    → All (λ r. range_le b r ≡ true) rs
    → All (λ r. AreApart a r) rs
All-from_mono a b [] h k = tt
All-from_mono a b (r ∷ rs) h (p, k) =
    (inl (omega (arith, range_le_from b r p)), All-from_mono a b rs h k)

-- In a sorted list the test of neighbours is a test of all pairs.
check_windows-AreApart :
    (rs : List SlotRange) → IsSorted range_le rs → check_windows rs ≡ ok tt → Pairs AreApart rs
unfolding check_windows
check_windows-AreApart [] s h = tt
check_windows-AreApart (a ∷ []) s h = (tt, tt)
check_windows-AreApart (a ∷ b ∷ rs) (_, (bs, s)) h =
    let fits : a.upto ≤ b.from = ground arith in
    let rest : check_windows (b ∷ rs) ≡ ok tt = ground arith in
    ((inl fits, All-from_mono a b rs fits bs), check_windows-AreApart (b ∷ rs) (bs, s) rest)

pub check_windows-sort :
    (rs : List SlotRange) → check_windows (sort range_le rs) ≡ ok tt → Pairs AreApart rs
check_windows-sort rs h = Pairs-sort_inv range_le AreApart AreApart-sym rs (
    check_windows-AreApart (sort range_le rs)
      (sort-IsSorted range_le range_le_total range_le_trans rs) h)

contains-range_from : (n lo k : ℕ) → contains n (range_from lo k) ≡ true → (lo ≤ n) × (n < lo + k)
unfolding range_from
contains-range_from n lo zero h = cc
contains-range_from n lo (suc k) h = ground (arith, contains-range_from n (suc lo) k)

-- A slot of a pool lies in its range.
pub contains-slots :
    (n : ℕ) (p : Pool) → contains n (slots p) ≡ true → (p.slot_base ≤ n) × (n < slot_end p)
unfolding slots
contains-slots n p h = omega (arith, contains-range_from n p.slot_base (slot_end p - p.slot_base) h)

-- No number is a slot of both pools.
abbrev pub SharesNoSlot : Pool → Pool → Type 0
SharesNoSlot p q = (n : ℕ) → (contains n (slots p) && contains n (slots q)) ≡ false

pub AreApart-SharesNoSlot : (p q : Pool) → AreApart (range_of p) (range_of q) → SharesNoSlot p q
AreApart-SharesNoSlot p q h n = elim (Bool-cases (contains n (slots p))) [
  | inr absent ↦ rw absent refl
  | inl there ↦ elim (Bool-cases (contains n (slots q))) [
    | inr absent ↦ rw (there, absent) refl
    | inl both ↦ absurd (omega (arith, contains-slots n p there, contains-slots n q both))
  ]
]
