-- ===== src/Worker/Health.antt =====
-- The loops of src/worker.rs that wait for a machine, for its runner's registration, and for the
-- end of its work. Each runs for a number of rounds.
pub mod Registration
use vmfleet.Prelude.{
  ℕ, zero, suc, ◌+◌, ◌-◌, min, List, [], ◌∷◌, Bool, true, false, Option, some, none, Result, ok,
  err, if◌then◌else◌, ltb, leb, find,
}
use vmfleet.Prelude.Text.{Text, codes, text_eq}
use vmfleet.Prelude.Act.{◌>>=◌, ◌>>◌, pure, try_, fail}
use vmfleet.World.{
  System, CmdOut, Io, Failure, not_ready, not_registered, child_exited, unfinished, poll_child, now,
  pause, succeeded,
}
use vmfleet.Admission.{nanos}
use vmfleet.Github.{Runner, Client, online}
use vmfleet.Multipass.{exec}

pub data RunnerState : Type 0 where
  is_online is_offline absent unknown : RunnerState

abbrev state_in : Option Runner → RunnerState
state_in none = absent
state_in (some r) = if online r then is_online else is_offline

abbrev state_of : Text → Result Failure (List Runner) → RunnerState
state_of vm (err e) = unknown
state_of vm (ok rs) = state_in (find (λ r. text_eq r.name vm) rs)

abbrev pub is_registered : RunnerState → Bool
is_registered is_online = true
is_registered is_offline = true
is_registered absent = false
is_registered unknown = false

abbrev is_ready : Result Failure CmdOut → Bool
is_ready (err e) = false
is_ready (ok o) = succeeded o

module _ (sys : System) where
  -- `child_alive`, for a child that was spawned.
  unfoldable pub child_alive : Io Bool
  child_alive h = let h' = poll_child ∷ h in (ok (sys.on_child h'), h')

  unfoldable pub wait_cloud_init : ℕ → Text → ℕ → ℕ → Io (Unit {0})
  wait_cloud_init zero vm timeout deadline = fail unfinished
  wait_cloud_init (suc rounds) vm timeout deadline =
      let again = wait_cloud_init rounds vm timeout deadline in
      let check_time : Io (Unit {0}) = do
        t ← now sys
        if ltb deadline t then fail not_ready else (pause sys 2 >> again)
      in do
        o ← try_ (exec sys vm (codes "cloud-init status --wait") (min timeout 120))
        if is_ready o then pure tt else check_time

  module _ (client : Client) (vm : Text) where
    unfoldable pub runner_state : Io RunnerState
    runner_state = do r ← try_ client.list_runners; pure (state_of vm r)

    unfoldable pub wait_registration : ℕ → ℕ → ℕ → Io (Unit {0})
    wait_registration zero poll deadline = fail unfinished
    wait_registration (suc rounds) poll deadline =
        let again = wait_registration rounds poll deadline in
        let check_time : Io (Unit {0}) = do
          t ← now sys
          if ltb deadline t then fail not_registered else (pause sys poll >> again)
        in let ask : Io (Unit {0}) = do
          s ← runner_state
          if is_registered s then pure tt else check_time
          in do alive ← child_alive; if alive then ask else fail child_exited

    -- `get_or_insert_with(Instant::now)`
    begin : Option ℕ → Io ℕ
    begin none = now sys
    begin (some t) = pure t

    -- A round of the monitor on the state found: it ends where the grace is over, else the loop goes
    -- on with the begin of the unhealthy time.
    monitor_round : (Option ℕ → Io (Unit {0})) → ℕ → Option ℕ → RunnerState → Io (Unit {0})
    unfolding begin
    monitor_round again grace since is_online = again none
    monitor_round again grace since unknown = again since
    monitor_round again grace since is_offline = do
      t ← begin since
      t' ← now sys
      if leb (nanos grace) (t' - t) then pure tt else again (some t)
    monitor_round again grace since absent = do
      t ← begin since
      t' ← now sys
      if leb (nanos grace) (t' - t) then pure tt else again (some t)

    unfoldable pub health_monitor : ℕ → ℕ → ℕ → Option ℕ → Io (Unit {0})
    unfolding monitor_round
    health_monitor zero grace poll since = fail unfinished
    health_monitor (suc rounds) grace poll since =
        let again : Option ℕ → Io (Unit {0}) =
          λ s. pause sys poll >> health_monitor rounds grace poll s in
        let look : Io (Unit {0}) = do s ← runner_state; monitor_round again grace since s
        in do alive ← child_alive; if alive then look else pure tt
