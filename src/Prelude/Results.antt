-- ===== src/Prelude/Results.antt =====
-- The result of a fallible call (`anyhow::Result`), with the errors of the model's own types, and
-- the postfix `?` as bind.
use mathlib.Core.Path.{◌≡◌, refl}
use mathlib.Core.Bool.{Bool, true, false}
use mathlib.Core.Option.{Option, none, some}

pub data Result {ℓ κ} (E : Type ℓ) (A : Type κ) : Type (ℓ ⊔ κ) where
  ok : A → Result E A
  err : E → Result E A

module _ {ℓ} {E : Type ℓ} where
  -- `if test { bail!(e) }`
  abbrev pub bail_if : Bool → E → Result E (Unit {0})
  bail_if false failure = ok tt
  bail_if true failure = err failure

  -- `.ok()`
  abbrev pub to_option {κ} : {A : Type κ} → Result E A → Option A
  to_option (ok a) = some a
  to_option (err e) = none

  -- `.is_ok()`
  abbrev pub is_ok {κ} : {A : Type κ} → Result E A → Bool
  is_ok (ok a) = true
  is_ok (err e) = false

  infixl 5 ◌>>=◌ ◌>>◌
  abbrev pub ◌>>=◌ {κ μ} : {A : Type κ} {B : Type μ} → Result E A → (A → Result E B) → Result E B
  ◌>>=◌ (err failure) next = err failure
  ◌>>=◌ (ok value) next = next value

  abbrev pub ◌>>◌ {κ} : {B : Type κ} → Result E (Unit {0}) → Result E B → Result E B
  ◌>>◌ first next = first >>= (λ _. next)

  pub >>=-eq-ok {κ μ} :
      {A : Type κ} {B : Type μ} (call : Result E A) (next : A → Result E B) {result : B}
      → (call >>= next) ≡ ok result
      → (value : A) × (call ≡ ok value) × (next value ≡ ok result)
  >>=-eq-ok (err failure) next e = cc
  >>=-eq-ok (ok value) next e = (value, refl, e)

  pub bail_if-eq-ok : (b : Bool) (e : E) {u : Unit {0}} → bail_if b e ≡ ok u → b ≡ false
  bail_if-eq-ok true e h = cc
  bail_if-eq-ok false e h = refl

-- `?` on an option, and `and_then`.
abbrev pub and_then {κ μ} : {A : Type κ} {B : Type μ} → Option A → (A → Option B) → Option B
and_then none f = none
and_then (some a) f = f a
