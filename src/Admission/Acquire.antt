-- ===== src/Admission/Acquire.antt =====
-- What `acquire` of src/admission.rs has done where it returns the lock.
use vmfleet.Prelude.Decimal.{u64_mod}
use vmfleet.Prelude.{
  ◌%◌, ℕ, Bool, true, false, zero, suc, ◌+◌, ◌*◌, max, ◌∷◌, Option, some, none, Result, ok, err,
  ◌≡◌, inl, inr, refl, Bool-cases, ltb, subst,
}
use vmfleet.Prelude.Text.{Text}
use vmfleet.Prelude.Act.{OnOk, OnOk-proceed, OnOk-log, OnOk-any, OnOk-mono, proceed}
use vmfleet.World.{
  System, History, Failure, Request, read_clock, read_file, free_space, sleep, try_lock, locked,
  would_block, lock_error, LockReply, Extends, unchanged, asked, Extends-trans, now, pause,
  read_text,
}
use vmfleet.Config.{Admission}
use vmfleet.Resources.{Floats, mem_available_mib, mem_psi_some_avg10, disk_free_gib}
use vmfleet.Admission.{
  Block, nanos, blocked, lock_round, make_parent, open_lock, lock_and_wait, lock_loop, wait_round,
  wait_clear, acquire,
}

-- The requests of the wait: samples and pauses, and nothing that gives the lock away.
pub data Waits : Request → Type 0 where
  reads : (path : Text) → Waits (read_file path)
  measures : (path : Text) → Waits (free_space path)
  sleeps : (n : ℕ) → Waits (sleep n)

module _ {F : Type 0} (fl : Floats F) (sys : System) (cfg : Admission F) (vault : Text) where
  -- The lock was taken, and from then on the program only waited.
  pub record Held (path : Text) (h' : History) : Type 0 where
    pub before : History
    pub granted : sys.on_lock (try_lock path ∷ before) ≡ locked
    pub since_then : Extends Waits (try_lock path ∷ before) h'

  -- The last thing that was done is a sample of the host, which did not find it blocked.
  abbrev pub SampledClear : History → Type 0
  SampledClear h' = (h : History) × (blocked fl sys cfg vault h ≡ (ok none, h'))

  abbrev Granted : Text → History → Type 0
  Granted path h' = (before : History) × (h' ≡ try_lock path ∷ before) × (sys.on_lock h' ≡ locked)

  lock_round-Granted :
      (again : History → Result Failure (Unit {0}) × History) (path : Text) (deadline : ℕ)
      → ((h : History) → OnOk (again h) (λ _ h'. Granted path h'))
      → (r : LockReply) (h : History) → sys.on_lock (try_lock path ∷ h) ≡ r
      → OnOk
          (lock_round fl sys cfg vault again path deadline r (try_lock path ∷ h))
          (λ _ h'. Granted path h')
  unfolding lock_round now pause
  lock_round-Granted again path deadline k locked h e = (h, refl, e)
  lock_round-Granted again path deadline k lock_error h e = tt
  lock_round-Granted again path deadline k would_block h e =
      elim (Bool-cases (ltb deadline (sys.on_clock (read_clock ∷ try_lock path ∷ h)))) [
        | inl late ↦ rw late tt
        | inr early ↦ rw early (k (sleep 2 ∷ read_clock ∷ try_lock path ∷ h))
      ]

  lock_loop-Granted :
      (rounds : ℕ) (path : Text) (deadline : ℕ) (h : History)
      → OnOk (lock_loop fl sys cfg vault rounds path deadline h) (λ _ h'. Granted path h')
  unfolding lock_loop
  lock_loop-Granted zero path deadline h = tt
  lock_loop-Granted (suc rounds) path deadline h =
      lock_round-Granted (lock_loop fl sys cfg vault rounds path deadline) path deadline
        (lock_loop-Granted rounds path deadline) (sys.on_lock (try_lock path ∷ h)) h refl

  blocked-Waits : (h : History) → Extends Waits h (blocked fl sys cfg vault h).1
  unfolding blocked mem_available_mib mem_psi_some_avg10 disk_free_gib read_text
  blocked-Waits h = asked (asked (asked unchanged _ (reads _)) _ (reads _)) _ (measures _)

  abbrev Clears : History → Result Failure (Unit {0}) × History → Type 0
  Clears h x = Extends Waits h x.1 × OnOk x (λ _ h'. SampledClear h')

  sampled-Clears :
      (again : History → Result Failure (Unit {0}) × History)
      → ((h : History) → Clears h (again h))
      → (h : History) (x : Result Failure (Option (Block F)) × History)
      → blocked fl sys cfg vault h ≡ x
      → Extends Waits h x.1
      → Clears h (proceed x (wait_round fl sys cfg vault again))
  unfolding wait_round pause
  sampled-Clears again k h (err e, h') q log = (log, tt)
  sampled-Clears again k h (ok none, h') q log = (log, (h, q))
  sampled-Clears again k h (ok (some b), h') q log =
      let n = max cfg.poll_seconds 1 in
      let rest = k (sleep n ∷ h') in (Extends-trans (asked log (sleep n) (sleeps n)) rest.0, rest.1)

  wait_clear-Clears : (rounds : ℕ) (h : History) → Clears h (wait_clear fl sys cfg vault rounds h)
  unfolding wait_clear
  wait_clear-Clears zero h = (unchanged, tt)
  wait_clear-Clears (suc rounds) h =
      sampled-Clears (wait_clear fl sys cfg vault rounds) (wait_clear-Clears rounds) h _ refl
        (blocked-Waits h)

  Held-of : (path : Text) {h h' : History} → Granted path h → Extends Waits h h' → Held path h'
  Held-of path {h} {h'} (before, e, granted) log = record {
    before = before;
    granted = subst (λ k. sys.on_lock k ≡ locked) e granted;
    since_then = subst (λ k. Extends Waits k h') e log;
  }

  lock_and_wait-Held :
      (rounds : ℕ) (path : Text) (opened : Bool) (h : History)
      → OnOk
          (lock_and_wait fl sys cfg vault rounds path opened h)
          (λ _ h'. Held path h' × SampledClear h')
  unfolding lock_and_wait now
  lock_and_wait-Held rounds path false h = tt
  lock_and_wait-Held rounds path true h =
      let deadline =
        sys.on_clock (read_clock ∷ h) + nanos (max cfg.lock_wait_seconds 1 * 20 % u64_mod) in
      OnOk-proceed (lock_loop fl sys cfg vault rounds path deadline (read_clock ∷ h)) _
        (λ _ h'. Granted path h') _ (lock_loop-Granted rounds path deadline (read_clock ∷ h))
        (λ _ h1 g.
          let waited = wait_clear-Clears rounds h1 in
          OnOk-mono (wait_clear fl sys cfg vault rounds h1) _ _
            (OnOk-log (wait_clear fl sys cfg vault rounds h1) (λ _ h'. SampledClear h')
              (Extends Waits h1) waited.1 waited.0)
            (λ _ h' (clear, log). (Held-of path g log, clear)))

  -- Where `acquire` succeeds, the lock was granted, nothing after that gave it away, and the last
  -- thing done under it was a sample of the host that did not find it blocked; whatever the number
  -- of rounds, the clock and the samples are.
  pub acquire-Held :
      (rounds : ℕ) (dir : Option Text) (path : Text) (h : History)
      → OnOk (acquire fl sys cfg vault rounds dir path h) (λ _ h'. Held path h' × SampledClear h')
  unfolding acquire
  acquire-Held rounds dir path h =
      OnOk-proceed (make_parent fl sys cfg vault dir h) _ (λ _ _. Unit {0}) _
        (OnOk-any (make_parent fl sys cfg vault dir h))
        (λ made h1 _.
          OnOk-proceed (open_lock fl sys cfg vault made path h1) _ (λ _ _. Unit {0}) _
            (OnOk-any (open_lock fl sys cfg vault made path h1))
            (λ opened h2 _. lock_and_wait-Held rounds path opened h2))
