-- ===== src/Prelude/Lists.antt =====
-- Lists measured by native numbers, with Boolean tests over their elements.
use Prim.Native.Nat.{ℕ, zero, suc, ◌+◌, ◌≤◌}
use mathlib.Core.Path.{◌≡◌, refl}
use mathlib.Core.Logic.{inl, inr}
use mathlib.Core.Bool.{Bool, true, false, ◌&&◌, ◌||◌}
use mathlib.Core.List.{List, [], ◌∷◌, ◌++◌}
use mathlib.Core.Option.{Option, none, some}
use native.Mathlib.Omega.{arith}
use vmfleet.Prelude.Tests.{if◌then◌else◌, ◌==◌, Bool-cases}

module _ {ℓ} {A : Type ℓ} where
  abbrev pub length : List A → ℕ
  length [] = 0
  length (x ∷ xs) = suc (length xs)

  abbrev pub take : ℕ → List A → List A
  take zero xs = []
  take (suc n) [] = []
  take (suc n) (x ∷ xs) = x ∷ take n xs

  -- `Iterator::any`
  abbrev pub any : (A → Bool) → List A → Bool
  any p [] = false
  any p (x ∷ xs) = p x || any p xs

  -- `Iterator::all`
  abbrev pub all : (A → Bool) → List A → Bool
  all p [] = true
  all p (x ∷ xs) = p x && all p xs

  -- `Iterator::filter`
  abbrev pub filter : (A → Bool) → List A → List A
  filter p [] = []
  filter p (x ∷ xs) = let rest = filter p xs in if p x then x ∷ rest else rest

  -- `Iterator::find`
  abbrev pub find : (A → Bool) → List A → Option A
  find p [] = none
  find p (x ∷ xs) = let rest = find p xs in if p x then some x else rest

  abbrev pub All {κ} : (A → Type κ) → List A → Type κ
  All P [] = Unit
  All P (x ∷ xs) = P x × All P xs

  abbrev pub cons_some : Option A → List A → List A
  cons_some none rest = rest
  cons_some (some b) rest = b ∷ rest

module _ {ℓ κ} {A : Type ℓ} {B : Type κ} where
  -- `Iterator::filter_map`
  abbrev pub filter_map : (A → Option B) → List A → List B
  filter_map f [] = []
  filter_map f (x ∷ xs) = cons_some (f x) (filter_map f xs)

  -- `Iterator::find_map`
  abbrev pub find_map : (A → Option B) → List A → Option B
  find_map f [] = none
  find_map f (x ∷ xs) = let rest = find_map f xs in elim (f x) [ none ↦ rest | some b ↦ some b ]

module _ {ℓ} {A : Type ℓ} where
  pub length-append : (xs ys : List A) → length (xs ++ ys) ≡ length xs + length ys
  length-append [] ys = omega arith
  length-append (x ∷ xs) ys = omega (arith, length-append xs ys)

  pub length-take-le : (n : ℕ) (xs : List A) → length (take n xs) ≤ n
  length-take-le zero xs = omega arith
  length-take-le (suc n) [] = omega arith
  length-take-le (suc n) (x ∷ xs) = omega (arith, length-take-le n xs)

-- `contains` of a collection of numbers.
abbrev pub contains : ℕ → List ℕ → Bool
contains n xs = any (λ m. m == n) xs

-- The first list is the second one without some of its elements.
pub data Sub {ℓ} {A : Type ℓ} : List A → List A → Type ℓ where
  nothing : {ys : List A} → Sub [] ys
  skip : {xs ys : List A} {y : A} → Sub xs ys → Sub xs (y ∷ ys)
  keep : {xs ys : List A} {x : A} → Sub xs ys → Sub (x ∷ xs) (x ∷ ys)

module _ {ℓ} {A : Type ℓ} where
  pub length-Sub : {xs ys : List A} → Sub xs ys → length xs ≤ length ys
  length-Sub nothing = omega arith
  length-Sub (skip h) = omega (arith, length-Sub h)
  length-Sub (keep h) = omega (arith, length-Sub h)

  pub All-Sub {κ} : (P : A → Type κ) {xs ys : List A} → Sub xs ys → All P ys → All P xs
  All-Sub P nothing h = tt
  All-Sub P (skip s) (p, h) = All-Sub P s h
  All-Sub P (keep s) (p, h) = (p, All-Sub P s h)

  pub All-take {κ} : (P : A → Type κ) (n : ℕ) (xs : List A) → All P xs → All P (take n xs)
  All-take P zero xs h = tt
  All-take P (suc n) [] h = tt
  All-take P (suc n) (x ∷ xs) (p, h) = (p, All-take P n xs h)

  pub All-mono {κ μ} :
      (P : A → Type κ) (Q : A → Type μ) (xs : List A) → ((a : A) → P a → Q a) → All P xs → All Q xs
  All-mono P Q [] f h = tt
  All-mono P Q (x ∷ xs) f (p, h) = (f x p, All-mono P Q xs f h)

  pub All-append {κ} : (P : A → Type κ) (xs ys : List A) → All P xs → All P ys → All P (xs ++ ys)
  All-append P [] ys h k = k
  All-append P (x ∷ xs) ys (p, h) k = (p, All-append P xs ys h k)

pub contains-filter :
    (p : ℕ → Bool) (n : ℕ) (xs : List ℕ) → contains n (filter p xs) ≡ (contains n xs && p n)
contains-filter p n [] = refl
contains-filter p n (x ∷ xs) = ground (arith, contains-filter p n xs)

contains-All_from :
    (ys xs : List ℕ)
    → ((n : ℕ) → contains n xs ≡ true → contains n ys ≡ true)
    → All (λ s. contains s ys ≡ true) xs
contains-All_from ys [] f = tt
contains-All_from ys (x ∷ xs) f =
    (f x (ground arith), contains-All_from ys xs (λ n h. f n (ground arith)))

-- A list contains its elements.
pub All-contains : (xs : List ℕ) → All (λ s. contains s xs ≡ true) xs
All-contains xs = contains-All_from xs xs (λ n h. h)

pub All-filter {κ} : {A : Type κ} (p : A → Bool) (xs : List A) → All (λ x. p x ≡ true) (filter p xs)
All-filter p [] = tt
All-filter p (x ∷ xs) = elim (Bool-cases (p x)) [
  | inl kept ↦ rw kept (kept, All-filter p xs)
  | inr dropped ↦ rw dropped (All-filter p xs)
]

-- The lists are of one length, and their elements are related pairwise.
pub data AllZip {ℓ κ μ} {A : Type ℓ} {B : Type κ} (P : A → B → Type μ)
    : List A → List B → Type (ℓ ⊔ κ ⊔ μ) where
  end : AllZip P [] []
  both :
      {x : A} {y : B} {xs : List A} {ys : List B}
      → P x y
      → AllZip P xs ys
      → AllZip P (x ∷ xs) (y ∷ ys)
