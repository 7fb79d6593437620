-- ===== src/Supervisor/Update.antt =====
-- The state that src/supervisor.rs keeps between cycles, and `maybe_update_check`.
pub mod Cycle
use vmfleet.Prelude.Decimal.{u64_mod}
use vmfleet.Prelude.{
  ◌%◌, ℕ, ◌*◌, ◌-◌, max, List, [], ◌∷◌, Bool, true, false, Option, some, none, if◌then◌else◌, leb,
  ok,
}
use vmfleet.Prelude.Text.{Text}
use vmfleet.Prelude.Act.{◌>>=◌, pure}
use vmfleet.World.{
  System, Io, now, poll_update, start_update, Received, arrived, disconnected, pending,
}
use vmfleet.Config.{Supervisor}
use vmfleet.Admission.{nanos}
use vmfleet.Selfupdate.Version.{is_newer}
use vmfleet.Supervisor.Scale.{IdleSince}

-- `SupState`. A check in flight is `update_rx`; what it delivers is the system's answer.
pub record SupState : Type 0 where
  pub idle_since : IdleSince
  pub cycle : ℕ
  pub cached_queued : List (Text × ℕ)
  pub last_update_check : Option ℕ
  pub latest_version : Option Text
  pub update_rx : Bool

abbrev pub fresh_state : SupState
fresh_state = record {
  idle_since = [];
  cycle = 0;
  cached_queued = [];
  last_update_check = none;
  latest_version = none;
  update_rx = false;
}

module _ (sys : System) (sup : Supervisor) (current_version : Text) where
  -- The three results of `try_recv`; a check that failed (`None`) leaves the version known.
  unfoldable pub apply_update : Received → SupState → SupState
  apply_update (arrived none) s = record s { update_rx = false }
  apply_update (arrived (some latest)) s = record s {
    latest_version = if is_newer latest current_version then some latest else none;
    update_rx = false;
  }
  apply_update disconnected s = record s { update_rx = false }
  apply_update pending s = s

  poll_check : SupState → Io SupState
  unfolding apply_update
  poll_check s h =
      if s.update_rx
      then (let h' = poll_update ∷ h in (ok (apply_update (sys.on_poll_update h') s), h'))
      else (ok s, h)

  is_due : Option ℕ → Io Bool
  is_due none = pure true
  is_due (some t) = do
    t' ← now sys
    pure (leb (nanos (max sup.update_check_interval_hours 1 * 3600 % u64_mod)) (t' - t))

  begin_check : SupState → Bool → Io SupState
  begin_check s due =
      if due
      then (do
        t ← now sys
        λ h. (ok (record s { last_update_check = some t; update_rx = true }), start_update ∷ h))
      else pure s

  start_check : SupState → Io SupState
  unfolding is_due begin_check
  start_check s =
      if s.update_rx then pure s else (do due ← is_due s.last_update_check; begin_check s due)

  unfoldable pub maybe_update_check : SupState → Io SupState
  unfolding poll_check start_check
  maybe_update_check s = do s' ← poll_check s; start_check s'
