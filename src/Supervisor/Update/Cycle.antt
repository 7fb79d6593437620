-- ===== src/Supervisor/Update/Cycle.antt =====
-- The update check of src/supervisor.rs cannot fail, and leaves the cycle's number.
use vmfleet.Prelude.{◌∷◌, ℕ, Bool, true, false, Option, none, some, Result, ◌≡◌, ◌∙◌, refl}
use vmfleet.Prelude.Text.{Text}
use vmfleet.Prelude.Act.{Returns, Returns-proceed, Returns-mono, Returns-if, Returns-if_call}
use vmfleet.World.{
  System, History, Failure, poll_update, now, Received, arrived, disconnected, pending,
}
use vmfleet.Config.{Supervisor}
use vmfleet.Supervisor.Update.{
  SupState, apply_update, poll_check, is_due, begin_check, start_check, maybe_update_check,
}

-- A state of the same cycle.
abbrev pub SameCycle : SupState → Result Failure SupState × History → Type 0
SameCycle s x = Returns x (λ s' _. s'.cycle ≡ s.cycle)

module _ (sys : System) (sup : Supervisor) (current : Text) where
  apply_update-cycle :
      (r : Received) (s : SupState) → (apply_update sys sup current r s).cycle ≡ s.cycle
  unfolding apply_update
  apply_update-cycle (arrived none) s = refl
  apply_update-cycle (arrived (some v)) s = refl
  apply_update-cycle disconnected s = refl
  apply_update-cycle pending s = refl

  poll_check-SameCycle : (s : SupState) (h : History) → SameCycle s (poll_check sys sup current s h)
  unfolding poll_check
  poll_check-SameCycle s h =
      Returns-if s.update_rx _ _ _ (apply_update-cycle (sys.on_poll_update (poll_update ∷ h)) s)
        refl

  begin_check-SameCycle :
      (s : SupState) (due : Bool) (h : History) → SameCycle s (begin_check sys sup current s due h)
  unfolding begin_check now
  begin_check-SameCycle s true h = refl
  begin_check-SameCycle s false h = refl

  is_due-succeeds :
      (o : Option ℕ) (h : History) → Returns (is_due sys sup current o h) (λ _ _. Unit {0})
  unfolding is_due now
  is_due-succeeds none h = tt
  is_due-succeeds (some t) h = tt

  start_check-SameCycle :
      (s : SupState) (h : History) → SameCycle s (start_check sys sup current s h)
  unfolding start_check
  start_check-SameCycle s h = Returns-if_call s.update_rx _ _ h _ refl (
      Returns-proceed (is_due sys sup current s.last_update_check h) _ _ _
        (is_due-succeeds s.last_update_check h) (λ due h' _. begin_check-SameCycle s due h'))

  pub maybe_update_check-SameCycle :
      (s : SupState) (h : History) → SameCycle s (maybe_update_check sys sup current s h)
  unfolding maybe_update_check
  maybe_update_check-SameCycle s h =
      Returns-proceed (poll_check sys sup current s h) _ _ _ (poll_check-SameCycle s h) (λ s' h' e.
        Returns-mono (start_check sys sup current s' h') _ _ (start_check-SameCycle s' h')
          (λ s'' h'' e'. e' ∙ e))
