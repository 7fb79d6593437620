-- ===== src/World/Steps.antt =====
-- Calls that make a fixed sequence of requests where they succeed.
use vmfleet.Prelude.{
  ℕ, ◌++◌, List, [], ◌∷◌, true, Option, some, none, ◌≡◌, refl, inl, inr, Bool-cases,
}
use vmfleet.Prelude.Text.{Text}
use vmfleet.Prelude.Act.{◌>>◌, pure, ◌>>=◌, OnOk, OnOk-proceed, OnOk-mono, OnOk-any, OnOk-log}
use vmfleet.World.{
  System, Io, History, CmdOut, Request, command, succeeded, checked, run, ran, require, Extends,
  unchanged, asked, Extends-trans,
}

-- The history after requests, the earliest first.
abbrev pub after : List Request → History → History
after [] h = h
after (r ∷ rs) h = after rs (r ∷ h)

pub after-append : (rs ss : List Request) (h : History) → after (rs ++ ss) h ≡ after ss (after rs h)
after-append [] ss h = refl
after-append (r ∷ rs) ss h = after-append rs ss (r ∷ h)

module _ (sys : System) where
  -- A request that did what it is for: a command ended with status 0, a change of a file was made.
  pub data Worked (h : History) : Request → Type 0 where
    executed :
        (program : Text) (args : List Text) (t : Option ℕ) (o : CmdOut)
        → sys.on_command (command program args t ∷ h) ≡ some o
        → succeeded o ≡ true
        → Worked h (command program args t)
    made : (r : Request) → sys.on_write (r ∷ h) ≡ true → Worked h r

  abbrev pub AllWorked : List Request → History → Type 0
  AllWorked [] h = Unit
  AllWorked (r ∷ rs) h = Worked h r × AllWorked rs (r ∷ h)

  -- Where the call succeeds, it made these requests in this order and no other, and each of them
  -- worked.
  abbrev pub Completes : List Request → Io (Unit {0}) → Type 0
  Completes rs m = (h : History) → OnOk (m h) (λ _ h'. (h' ≡ after rs h) × AllWorked rs h)

  AllWorked-append :
      (rs ss : List Request) (h : History)
      → AllWorked rs h
      → AllWorked ss (after rs h)
      → AllWorked (rs ++ ss) h
  AllWorked-append [] ss h _ more = more
  AllWorked-append (r ∷ rs) ss h (w, ws) more = (w, AllWorked-append rs ss (r ∷ h) ws more)

  pub Completes-append :
      (rs ss : List Request) (m k : Io (Unit {0}))
      → Completes rs m
      → Completes ss k
      → Completes (rs ++ ss) (m >> k)
  Completes-append rs ss m k first then_ h =
      OnOk-proceed (m h) _ (λ _ h1. (h1 ≡ after rs h) × AllWorked rs h) _ (first h)
        (λ _ h1 (e, ws). OnOk-mono (k h1) _ _ (then_ h1) (λ _ h2 (e2, more).
          let all_worked : AllWorked (rs ++ ss) h = AllWorked-append rs ss h ws (rw⁻¹ e more) in
          let end : h2 ≡ after (rs ++ ss) h = rw (after-append rs ss h) (rw⁻¹ e e2) in
          (end, all_worked)))

  required :
      (program : Text) (args : List Text) (t : Option ℕ) (h : History) (reply : Option CmdOut)
      → sys.on_command (command program args t ∷ h) ≡ reply
      → OnOk
          (require sys program (ran sys program reply), command program args t ∷ h)
          (λ _ h'. (h' ≡ command program args t ∷ h) × Worked h (command program args t))
  required program args t h none e = tt
  required program args t h (some o) e = elim (Bool-cases (succeeded o)) [
    | inl done ↦ rw done (refl, executed program args t o e done)
    | inr failed ↦ rw failed tt
  ]

  abbrev pub checked_unit : Text → List Text → Option ℕ → Io (Unit {0})
  checked_unit program args t = do checked sys program args t; pure tt

  pub checked_unit-Completes :
      (program : Text) (args : List Text) (t : Option ℕ)
      → Completes (command program args t ∷ []) (checked_unit program args t)
  unfolding checked run
  checked_unit-Completes program args t h =
      OnOk-proceed (checked sys program args t h) _
        (λ _ h'. (h' ≡ command program args t ∷ h) × Worked h (command program args t)) _
        (required program args t h _ refl) (λ _ h' (e, w). (e, (w, tt)))

  abbrev Grows : History → History → Type 0
  Grows h h' = Extends (λ _. Unit {0}) h h'

  -- Between the two histories the requests were made in this order, and each of them worked; others
  -- may stand between them.
  abbrev pub InOrder : List Request → History → History → Type 0
  InOrder [] h h' = Extends (λ _. Unit {0}) h h'
  InOrder (r ∷ rs) h h' =
      (before : History) × Extends (λ _. Unit {0}) h before
      × Worked before r
      × InOrder rs (r ∷ before) h'

  InOrder-earlier :
      (rs : List Request) (h0 h h' : History) → Grows h0 h → InOrder rs h h' → InOrder rs h0 h'
  InOrder-earlier [] h0 h h' g i = Extends-trans g i
  InOrder-earlier (r ∷ rs) h0 h h' g (before, g', w, i) = (before, Extends-trans g g', w, i)

  InOrder-append :
      (rs ss : List Request) (h h' h'' : History)
      → InOrder rs h h'
      → InOrder ss h' h''
      → InOrder (rs ++ ss) h h''
  InOrder-append [] ss h h' h'' g i = InOrder-earlier ss h h' h'' g i
  InOrder-append (r ∷ rs) ss h h' h'' (before, g, w, i) j =
      (before, g, w, InOrder-append rs ss (r ∷ before) h' h'' i j)

  -- Where the call succeeds, it made the requests in this order.
  abbrev pub Records : {A : Type 0} → List Request → Io A → Type 0
  Records rs m = (h : History) → OnOk (m h) (λ _ h'. InOrder rs h h')

  pub Records-append :
      {A B : Type 0} (rs ss : List Request) (m : Io A) (f : A → Io B)
      → Records rs m
      → ((a : A) → Records ss (f a))
      → Records (rs ++ ss) (m >>= f)
  Records-append rs ss m f first then_ h =
      OnOk-proceed (m h) f (λ _ h1. InOrder rs h h1) _ (first h)
        (λ a h1 i. OnOk-mono (f a h1) _ _ (then_ a h1) (λ _ h2 j. InOrder-append rs ss h h1 h2 i j))

  InOrder-later :
      (rs : List Request) (h h' h'' : History) → InOrder rs h h' → Grows h' h'' → InOrder rs h h''
  InOrder-later [] h h' h'' g g' = Extends-trans g g'
  InOrder-later (r ∷ rs) h h' h'' (before, g, w, i) g' =
      (before, g, w, InOrder-later rs (r ∷ before) h' h'' i g')

  -- What follows makes none of the requests that count.
  pub Records-then :
      {A B : Type 0} (rs : List Request) (m : Io A) (f : A → Io B)
      → Records rs m
      → ((a : A) → Records [] (f a))
      → Records rs (m >>= f)
  Records-then rs m f first then_ h =
      OnOk-proceed (m h) f (λ _ h1. InOrder rs h h1) _ (first h)
        (λ a h1 i. OnOk-mono (f a h1) _ _ (then_ a h1) (λ _ h2 g. InOrder-later rs h h1 h2 i g))

  pub Records-of_growth : {A : Type 0} (m : Io A) → ((h : History) → Grows h (m h).1) → Records [] m
  Records-of_growth m grows h =
      OnOk-mono (m h) _ _ (OnOk-log (m h) (λ _ _. Unit {0}) (Grows h) (OnOk-any (m h)) (grows h))
        (λ _ _ p. p.1)

  -- A call that asks once, where its result says that the request worked.
  pub checked-Records :
      (program : Text) (args : List Text) (t : Option ℕ)
      → Records (command program args t ∷ []) (checked sys program args t)
  unfolding checked run
  checked-Records program args t h =
      OnOk-mono (checked sys program args t h) _ _ (required program args t h _ refl)
        (λ _ h' p. (h, unchanged, p.1, rw p.0 unchanged))

  pub checked-Grows :
      (program : Text) (args : List Text) (t : Option ℕ) (h : History)
      → Grows h (checked sys program args t h).1
  unfolding checked run
  checked-Grows program args t h = asked unchanged _ tt
