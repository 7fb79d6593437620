-- ===== src/Worker/Health/Registration.antt =====
-- How long src/worker.rs waits for the registration of its runner.
use vmfleet.Prelude.{
  ℕ, zero, suc, ◌+◌, ◌≤◌, ◌<◌, ◌∷◌, err, ◌≡◌, ◌≢◌, inl, inr, arith, Bool-cases, ltb, subst,
}
use vmfleet.Prelude.Text.{Text}
use vmfleet.World.{
  System, History, Request, read_clock, sleep, poll_child, unfinished, now, pause, Extends,
  unchanged, asked,
}
use vmfleet.Admission.{nanos}
use vmfleet.Admission.LockWait.{IsClock}
use vmfleet.Github.{Client, IsRemote}
use vmfleet.Worker.Health.{child_alive, is_registered, runner_state, state_of, wait_registration}

-- Time does not go back while requests are made.
pub time_passes :
    {P : Request → Type 0} (sys : System)
    → IsClock sys
    → {h h' : History} → Extends P h h'
    → sys.on_clock (read_clock ∷ h) ≤ sys.on_clock (read_clock ∷ h')
time_passes sys clock unchanged = omega arith
time_passes sys clock (asked {h'} e r p) = omega (arith, time_passes sys clock e, clock r h')

module _ (sys : System) (clock : IsClock sys) (client : Client) (remote : IsRemote client)
    (vm : Text) (poll : ℕ) where
  -- The history when a round reads the clock.
  abbrev asked_by : History → History
  asked_by h = (client.list_runners (poll_child ∷ h)).1

  round-finishes :
      (k deadline : ℕ) (h : History)
      → (sys.on_clock (read_clock ∷ asked_by h) ≤ deadline
          → (wait_registration sys client vm k poll deadline
              (sleep poll ∷ read_clock ∷ asked_by h)).0
            ≢ err unfinished)
      → (wait_registration sys client vm (suc k) poll deadline h).0 ≢ err unfinished
  unfolding wait_registration child_alive runner_state now pause
  round-finishes k deadline h again = elim (Bool-cases (sys.on_child (poll_child ∷ h))) [
    | inr dead ↦ rw dead (λ e. cc)
    | inl alive ↦
        elim (Bool-cases (is_registered (state_of vm (client.list_runners (poll_child ∷ h)).0))) [
          | inl there ↦ rw (alive, there) (λ e. cc)
          | inr absent ↦ elim (Bool-cases (ltb deadline (sys.on_clock (read_clock ∷ asked_by h)))) [
            | inl late ↦ rw (alive, absent, late) (λ e. cc)
            | inr early ↦ rw (alive, absent, early) (again (ground arith))
          ]
        ]
  ]

  wait_registration-enough :
      0 < poll
      → (k deadline : ℕ) (h : History) → deadline < sys.on_clock (read_clock ∷ h) + nanos k
      → (wait_registration sys client vm (suc k) poll deadline h).0 ≢ err unfinished
  wait_registration-enough positive zero deadline h small = round-finishes 0 deadline h (λ early.
      absurd (
        omega (
          arith,
          early,
          small,
          clock poll_child h,
          time_passes sys clock (remote.lists (poll_child ∷ h)),
        )))
  wait_registration-enough positive (suc k) deadline h small =
      round-finishes (suc k) deadline h (λ early.
        wait_registration-enough positive k deadline (sleep poll ∷ read_clock ∷ asked_by h) (
          omega (
            arith,
            small,
            clock poll_child h,
            time_passes sys clock (remote.lists (poll_child ∷ h)),
            clock read_clock (asked_by h),
            clock (sleep poll) (read_clock ∷ asked_by h),
          )))

  -- The wait for the registration ends, with the registration, a timeout or the child's end, after
  -- at most as many polls as the timeout has seconds and two more, where the polls are at least a
  -- second apart; on a clock that does not go back and with pauses that are not cut short.
  pub wait_registration-finishes :
      0 < poll
      → (timeout : ℕ) (h : History)
      → (wait_registration sys client vm
          (timeout + 2)
          poll
          (sys.on_clock (read_clock ∷ h) + nanos timeout)
          (read_clock ∷ h)).0
        ≢ err unfinished
  wait_registration-finishes positive timeout h =
      let deadline = sys.on_clock (read_clock ∷ h) + nanos timeout in
      let e : suc (timeout + 1) ≡ timeout + 2 = omega arith in
      subst
        (λ n. (wait_registration sys client vm n poll deadline (read_clock ∷ h)).0 ≢ err unfinished)
        e
        (wait_registration-enough positive (timeout + 1) deadline (read_clock ∷ h)
          (omega (arith, clock read_clock h)))
