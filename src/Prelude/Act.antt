-- ===== src/Prelude/Act.antt =====
-- Fallible calls that change a state: a state of the caller goes in, a result and the new state
-- come out. `try_` runs a call for its result (`match`, `let _ =`, `.ok()`), so that it cannot
-- fail.
use mathlib.Core.Bool.{Bool, true, false}
use mathlib.Core.Path.{◌≡◌, refl}
use native.Mathlib.Omega.{arith}
use mathlib.Core.List.{List, [], ◌∷◌}
use vmfleet.Prelude.Tests.{if◌then◌else◌}
use vmfleet.Prelude.Results.{Result, ok, err}

abbrev pub Act : Type 0 → Type 0 → Type 0 → Type 0
Act S E A = S → Result E A × S

module _ {S E : Type 0} where
  abbrev pub proceed : {A B : Type 0} → Result E A × S → (A → Act S E B) → Result E B × S
  proceed (ok a, s) f = f a s
  proceed (err e, s) f = (err e, s)

  infixl 5 ◌>>=◌ ◌>>◌
  abbrev pub ◌>>=◌ : {A B : Type 0} → Act S E A → (A → Act S E B) → Act S E B
  ◌>>=◌ m f s = proceed (m s) f

  abbrev pub ◌>>◌ : {A B : Type 0} → Act S E A → Act S E B → Act S E B
  ◌>>◌ m k s = proceed (m s) (λ _. k)

  abbrev pub pure : {A : Type 0} → A → Act S E A
  pure a s = (ok a, s)

  abbrev pub fail : {A : Type 0} → E → Act S E A
  fail e s = (err e, s)

  abbrev pub lift : {A : Type 0} → Result E A → Act S E A
  lift r s = (r, s)

  abbrev pub try_ : {A : Type 0} → Act S E A → Act S E (Result E A)
  try_ m s = let (r, s') = m s in (ok r, s')

  -- `for x in xs { f(x) }` for a call whose failure is ignored or ends the loop.
  abbrev pub for_each : {A : Type 0} → List A → (A → Act S E (Unit {0})) → Act S E (Unit {0})
  for_each [] f s = (ok tt, s)
  for_each (x ∷ xs) f s = proceed (f x s) (λ _. for_each xs f)

  -- The call succeeds, and its result and the state that it leaves satisfy `P`.
  abbrev pub Returns : {A : Type 0} → Result E A × S → (A → S → Type 0) → Type 0
  Returns (ok a, s) P = P a s
  Returns (err e, s) P = ⊥

  pub Returns-proceed :
      {A B : Type 0} (x : Result E A × S) (f : A → Act S E B) (P : A → S → Type 0)
      (Q : B → S → Type 0)
      → Returns x P
      → ((a : A) (s : S) → P a s → Returns (f a s) Q)
      → Returns (proceed x f) Q
  Returns-proceed (ok a, s) f P Q p k = k a s p
  Returns-proceed (err e, s) f P Q p k = absurd p

  pub Returns-mono :
      {A : Type 0} (x : Result E A × S) (P Q : A → S → Type 0)
      → Returns x P
      → ((a : A) (s : S) → P a s → Q a s)
      → Returns x Q
  Returns-mono (ok a, s) P Q p k = k a s p
  Returns-mono (err e, s) P Q p k = absurd p

  -- Where the call succeeds, its result and the state that it leaves satisfy `P`.
  abbrev pub OnOk : {A : Type 0} → Result E A × S → (A → S → Type 0) → Type 0
  OnOk (ok a, s) P = P a s
  OnOk (err e, s) P = Unit

  pub OnOk-proceed :
      {A B : Type 0} (x : Result E A × S) (f : A → Act S E B) (P : A → S → Type 0)
      (Q : B → S → Type 0)
      → OnOk x P
      → ((a : A) (s : S) → P a s → OnOk (f a s) Q)
      → OnOk (proceed x f) Q
  OnOk-proceed (ok a, s) f P Q p k = k a s p
  OnOk-proceed (err e, s) f P Q p k = tt

  pub OnOk-log :
      {A : Type 0} (x : Result E A × S) (P : A → S → Type 0) (Q : S → Type 0)
      → OnOk x P
      → Q x.1
      → OnOk x (λ a s. P a s × Q s)
  OnOk-log (ok a, s) P Q p q = (p, q)
  OnOk-log (err e, s) P Q p q = tt

  pub OnOk-mono :
      {A : Type 0} (x : Result E A × S) (P Q : A → S → Type 0)
      → OnOk x P
      → ((a : A) (s : S) → P a s → Q a s)
      → OnOk x Q
  OnOk-mono (ok a, s) P Q p k = k a s p
  OnOk-mono (err e, s) P Q p k = tt

  pub OnOk-any : {A : Type 0} (x : Result E A × S) → OnOk x (λ _ _. Unit {0})
  OnOk-any (ok a, s) = tt
  OnOk-any (err e, s) = tt

  pub proceed-pure :
      {A B : Type 0} (x : Result E A × S) (f : A → B) → (proceed x (λ a. pure (f a))).1 ≡ x.1
  proceed-pure (ok a, s) f = refl
  proceed-pure (err e, s) f = refl

  pub OnOk-pure :
      {A B : Type 0} (x : Result E A × S) (f : A → B) (P : B → S → Type 0)
      → ((a : A) (s : S) → P (f a) s)
      → OnOk (proceed x (λ a. pure (f a))) P
  OnOk-pure (ok a, s) f P k = k a s
  OnOk-pure (err e, s) f P k = tt

  pub proceed-ok :
      {A B : Type 0} (x : Result E A × S) (f : A → Act S E B) (a : A)
      → x.0 ≡ ok a
      → proceed x f ≡ f a x.1
  proceed-ok (ok a', s) f a e = let same : a' ≡ a = ground arith in rw same refl
  proceed-ok (err e', s) f a e = cc

  pub Returns-if :
      {A : Type 0} (b : Bool) (x y : Result E A × S) (P : A → S → Type 0)
      → Returns x P
      → Returns y P
      → Returns (if b then x else y) P
  Returns-if true x y P p q = p
  Returns-if false x y P p q = q

  pub Returns-if_call :
      {A : Type 0} (b : Bool) (m k : Act S E A) (s : S) (P : A → S → Type 0)
      → Returns (m s) P
      → Returns (k s) P
      → Returns ((if b then m else k) s) P
  Returns-if_call true m k s P p q = p
  Returns-if_call false m k s P p q = q

  -- What holds of the state after a call that returns and what follows it.
  pub Returns-after :
      {A B : Type 0} (x : Result E A × S) (f : A → Act S E B) (P : A → S → Type 0) (Q : S → Type 0)
      → Returns x P
      → ((a : A) (s : S) → P a s → Q (f a s).1)
      → Q (proceed x f).1
  Returns-after (ok a, s) f P Q p k = k a s p
  Returns-after (err e, s) f P Q p k = absurd p

  pub if_call-after :
      {A : Type 0} (b : Bool) (m k : Act S E A) (s : S) (Q : S → Type 0)
      → Q (m s).1
      → Q (k s).1
      → Q ((if b then m else k) s).1
  if_call-after true m k s Q p q = p
  if_call-after false m k s Q p q = q

  pub proceed-eq-ok :
      {A B : Type 0} (x : Result E A × S) (f : A → Act S E B) {b : B} {s' : S}
      → proceed x f ≡ (ok b, s')
      → (a : A) × (s : S) × (x ≡ (ok a, s)) × (f a s ≡ (ok b, s'))
  proceed-eq-ok (ok a, s) f e = (a, s, refl, e)
  proceed-eq-ok (err failure, s) f e = cc

  pub ok-inj :
      {A : Type 0} {a b : A} {s t : S}
      → ◌≡◌ {A = Result E A × S} (ok a, s) (ok b, t)
      → (a ≡ b) × (s ≡ t)
  ok-inj e = (cc, cc)

  -- What holds of both branches, each with its test, holds of the conditional call.
  pub if_call_by :
      {A : Type 0} (b : Bool) (m k : Act S E A) (s : S) (Q : Result E A × S → Type 0)
      → (b ≡ true → Q (m s))
      → (b ≡ false → Q (k s))
      → Q ((if b then m else k) s)
  if_call_by true m k s Q p q = p refl
  if_call_by false m k s Q p q = q refl

  pub Returns-state :
      {A : Type 0} (x : Result E A × S) (Q : S → Type 0) → Returns x (λ _ s. Q s) → Q x.1
  Returns-state (ok a, s) Q p = p
  Returns-state (err e, s) Q p = absurd p

  pub Returns-log :
      {A : Type 0} (x : Result E A × S) (P : A → S → Type 0) (Q : S → Type 0)
      → Returns x P
      → Q x.1
      → Returns x (λ a s. P a s × Q s)
  Returns-log (ok a, s) P Q p q = (p, q)
  Returns-log (err e, s) P Q p q = absurd p

  pub Returns-both :
      {A : Type 0} (x : Result E A × S) (P Q : A → S → Type 0)
      → Returns x P
      → Returns x Q
      → Returns x (λ a s. P a s × Q a s)
  Returns-both (ok a, s) P Q p q = (p, q)
  Returns-both (err e, s) P Q p q = absurd p
