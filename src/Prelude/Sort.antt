-- ===== src/Prelude/Sort.antt =====
-- The standard library's stable sort by an order given as a test (`sort`, `sort_by_key`,
-- `sort_unstable`): the result is the rearrangement that it documents, computed by insertion.
use mathlib.Core.Path.{◌≡◌}
use mathlib.Core.Logic.{inl, inr}
use mathlib.Core.Bool.{Bool, true, false}
use mathlib.Core.List.{List, [], ◌∷◌}
use vmfleet.Prelude.Tests.{if◌then◌else◌, Bool-cases}
use vmfleet.Prelude.Lists.{All}

module _ {ℓ} {A : Type ℓ} (le : A → A → Bool) where
  unfoldable pub insert_sorted : A → List A → List A
  insert_sorted x [] = x ∷ []
  insert_sorted x (y ∷ ys) =
      let rest = insert_sorted x ys in if le x y then x ∷ y ∷ ys else y ∷ rest

  unfoldable pub sort : List A → List A
  unfolding insert_sorted
  sort [] = []
  sort (x ∷ xs) = insert_sorted x (sort xs)

  -- No element stands before a smaller one.
  abbrev pub IsSorted : List A → Type ℓ
  IsSorted [] = Unit
  IsSorted (x ∷ xs) = All (λ y. le x y ≡ true) xs × IsSorted xs

  All-insert_sorted {κ} :
      (P : A → Type κ) (x : A) (ys : List A) → P x → All P ys → All P (insert_sorted x ys)
  unfolding insert_sorted
  All-insert_sorted P x [] p h = (p, tt)
  All-insert_sorted P x (y ∷ ys) p (q, h) = elim (Bool-cases (le x y)) [
    | inl first ↦ rw first (p, (q, h))
    | inr later ↦ rw later (q, All-insert_sorted P x ys p h)
  ]

  All-insert_sorted_inv {κ} :
      (P : A → Type κ) (x : A) (ys : List A) → All P (insert_sorted x ys) → P x × All P ys
  unfolding insert_sorted
  All-insert_sorted_inv P x [] h = h
  All-insert_sorted_inv P x (y ∷ ys) h = elim (Bool-cases (le x y)) [
    | inl first ↦ rw first at h
    | inr later ↦
        let h' : P y × All P (insert_sorted x ys) = rw later at h in
        let (p, rest) = All-insert_sorted_inv P x ys h'.1 in (p, (h'.0, rest))
  ]

  -- A sort keeps what holds of every element.
  pub All-sort {κ} : (P : A → Type κ) (xs : List A) → All P xs → All P (sort xs)
  unfolding sort
  All-sort P [] h = tt
  All-sort P (x ∷ xs) (p, h) = All-insert_sorted P x (sort xs) p (All-sort P xs h)

  pub All-sort_inv {κ} : (P : A → Type κ) (xs : List A) → All P (sort xs) → All P xs
  unfolding sort
  All-sort_inv P [] h = tt
  All-sort_inv P (x ∷ xs) h =
      let (p, rest) = All-insert_sorted_inv P x (sort xs) h in (p, All-sort_inv P xs rest)

  module _ (total : (x y : A) → le x y ≡ false → le y x ≡ true)
      (trans : (x y z : A) → le x y ≡ true → le y z ≡ true → le x z ≡ true) where
    All-le_trans :
        (x y : A) (ys : List A)
        → le x y ≡ true
        → All (λ z. le y z ≡ true) ys
        → All (λ z. le x z ≡ true) ys
    All-le_trans x y [] h k = tt
    All-le_trans x y (z ∷ zs) h (p, k) = (trans x y z h p, All-le_trans x y zs h k)

    insert_sorted-IsSorted : (x : A) (ys : List A) → IsSorted ys → IsSorted (insert_sorted x ys)
    unfolding insert_sorted
    insert_sorted-IsSorted x [] h = (tt, tt)
    insert_sorted-IsSorted x (y ∷ ys) (h, k) = elim (Bool-cases (le x y)) [
      | inl first ↦ rw first ((first, All-le_trans x y ys first h), (h, k))
      | inr later ↦ rw later (
        All-insert_sorted (λ z. le y z ≡ true) x ys (total x y later) h,
        insert_sorted-IsSorted x ys k,
      )
    ]

    pub sort-IsSorted : (xs : List A) → IsSorted (sort xs)
    unfolding sort
    sort-IsSorted [] = tt
    sort-IsSorted (x ∷ xs) = insert_sorted-IsSorted x (sort xs) (sort-IsSorted xs)

-- Every two elements are related, the earlier one first.
abbrev pub Pairs {ℓ κ} : {A : Type ℓ} → (A → A → Type κ) → List A → Type κ
Pairs R [] = Unit
Pairs R (x ∷ xs) = All (R x) xs × Pairs R xs

module _ {ℓ κ} {A : Type ℓ} (le : A → A → Bool) (R : A → A → Type κ)
    (R_sym : (x y : A) → R x y → R y x) where
  Pairs-insert_sorted_inv :
      (x : A) (ys : List A) → Pairs R (insert_sorted le x ys) → All (R x) ys × Pairs R ys
  unfolding insert_sorted
  Pairs-insert_sorted_inv x [] h = (tt, tt)
  Pairs-insert_sorted_inv x (y ∷ ys) h = elim (Bool-cases (le x y)) [
    | inl first ↦ rw first at h
    | inr later ↦
        let h' : All (R y) (insert_sorted le x ys) × Pairs R (insert_sorted le x ys) =
          rw later at h in
        let (rx, rest) = Pairs-insert_sorted_inv x ys h'.1 in
        let (ryx, rys) = All-insert_sorted_inv le (R y) x ys h'.0 in
        ((R_sym y x ryx, rx), (rys, rest))
  ]

  -- A symmetric relation between all elements of the sorted list holds between those of the list.
  pub Pairs-sort_inv : (xs : List A) → Pairs R (sort le xs) → Pairs R xs
  unfolding sort
  Pairs-sort_inv [] h = tt
  Pairs-sort_inv (x ∷ xs) h =
      let (rx, rest) = Pairs-insert_sorted_inv x (sort le xs) h in
      (All-sort_inv le (R x) xs rx, Pairs-sort_inv xs rest)
