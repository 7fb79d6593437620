-- ===== src/Admission/LockWait.antt =====
-- How long src/admission.rs waits for its lock.
use vmfleet.Prelude.Decimal.{u64_mod}
use vmfleet.Prelude.{
  ◌%◌, ℕ, zero, suc, ◌+◌, ◌*◌, max, ◌∷◌, err, ◌≡◌, ◌≢◌, ◌≤◌, ◌<◌, inl, inr, arith, Bool-cases, ltb,
  subst, Result,
}
use vmfleet.Prelude.Text.{Text}
use vmfleet.World.{
  System, History, Request, read_clock, sleep, try_lock, LockReply, locked, would_block, lock_error,
  Failure, unfinished, now, pause,
}
use vmfleet.Config.{Admission}
use vmfleet.Resources.{Floats}
use vmfleet.Admission.{nanos, lock_round, lock_loop}

-- The nanoseconds that a request takes at least.
abbrev pub takes : Request → ℕ
takes (sleep n) = nanos n
takes r = 0

-- The clock is monotone, and a pause is not cut short.
abbrev pub IsClock : System → Type 0
IsClock sys =
    (r : Request) (h : History)
    → sys.on_clock (read_clock ∷ h) + takes r ≤ sys.on_clock (read_clock ∷ r ∷ h)

module _ {F : Type 0} (fl : Floats F) (sys : System) (cfg : Admission F) (vault : Text) where
  lock_round-finishes :
      (again : History → Result Failure (Unit {0}) × History) (path : Text) (deadline : ℕ)
      (r : LockReply) (h : History)
      → (sys.on_clock (read_clock ∷ h) ≤ deadline
          → (again (sleep 2 ∷ read_clock ∷ h)).0 ≢ err unfinished)
      → (lock_round fl sys cfg vault again path deadline r h).0 ≢ err unfinished
  unfolding lock_round now pause
  lock_round-finishes again path deadline locked h k = λ e. cc
  lock_round-finishes again path deadline lock_error h k = λ e. cc
  lock_round-finishes again path deadline would_block h k =
      elim (Bool-cases (ltb deadline (sys.on_clock (read_clock ∷ h)))) [
        | inl late ↦ rw late (λ e. cc)
        | inr early ↦ rw early (k (ground arith))
      ]

  lock_loop-enough :
      IsClock sys
      → (k : ℕ) (path : Text) (deadline : ℕ) (h : History)
      → deadline < sys.on_clock (read_clock ∷ try_lock path ∷ h) + nanos (2 * k)
      → (lock_loop fl sys cfg vault (suc k) path deadline h).0 ≢ err unfinished
  unfolding lock_loop
  lock_loop-enough clock zero path deadline h small =
      lock_round-finishes (lock_loop fl sys cfg vault 0 path deadline) path deadline
        (sys.on_lock (try_lock path ∷ h)) (try_lock path ∷ h)
        (λ early. absurd (omega (arith, early, small)))
  lock_loop-enough clock (suc k) path deadline h small =
      let tried = try_lock path ∷ h in
      let slept = sleep 2 ∷ read_clock ∷ tried in
      lock_round-finishes (lock_loop fl sys cfg vault (suc k) path deadline) path deadline
        (sys.on_lock tried) tried
        (λ early. lock_loop-enough clock k path deadline slept (
          omega (
            arith,
            small,
            clock read_clock tried,
            clock (sleep 2) (read_clock ∷ tried),
            clock (try_lock path) slept,
          )))

  -- The wait for the lock ends, with the lock, a timeout or an error, after at most ten tries for
  -- each second of `lock_wait_seconds`, which counts as one where it is zero, and two more; on a
  -- clock that does not go back and with pauses that are not cut short.
  pub lock_loop-finishes :
      IsClock sys
      → (path : Text) (h : History)
      → let seconds = max cfg.lock_wait_seconds 1 in
        (lock_loop fl sys cfg vault
          (10 * seconds + 2)
          path
          (sys.on_clock (read_clock ∷ h) + nanos (seconds * 20 % u64_mod))
          (read_clock ∷ h)).0
        ≢ err unfinished
  lock_loop-finishes clock path h =
      let seconds = max cfg.lock_wait_seconds 1 in
      let deadline = sys.on_clock (read_clock ∷ h) + nanos (seconds * 20 % u64_mod) in
      let h0 = read_clock ∷ h in
      let e : suc (10 * seconds + 1) ≡ 10 * seconds + 2 = omega arith in
      subst (λ n. (lock_loop fl sys cfg vault n path deadline h0).0 ≢ err unfinished) e
        (lock_loop-enough clock (10 * seconds + 1) path deadline h0
          (omega (arith, clock read_clock h, clock (try_lock path) h0)))
