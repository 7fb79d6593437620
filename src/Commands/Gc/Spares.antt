-- ===== src/Commands/Gc/Spares.antt =====
-- Which machines `gc` of src/commands.rs leaves alone.
use vmfleet.Prelude.{ℕ, List, [], ◌∷◌, true, false, ◌≡◌, inl, inr, Bool-cases}
use vmfleet.Prelude.Text.{Text}
use vmfleet.World.{
  System, Request, History, Extends, unchanged, Extends-trans, Extends-mono, Extends-proceed,
}
use vmfleet.Config.{Base, Pool}
use vmfleet.Multipass.{VmState, purge}
use vmfleet.Multipass.Purge.{TearsDown, purge-TearsDown}
use vmfleet.Commands.Gc.{is_base, is_orphan, purge_orphans}

-- The request is part of the teardown of a listed machine that is no base and that no active unit
-- runs.
pub record ClearsOrphan (bases : List Base) (pools : List Pool) (active : List ℕ) (r : Request)
    : Type 0 where
  pub name : Text
  pub not_base : is_base bases name ≡ false
  pub unused : is_orphan pools active name ≡ true
  pub teardown : TearsDown name r

module _ (sys : System) (bases : List Base) (pools : List Pool) (active : List ℕ) where
  -- Whatever machines are listed and whatever the commands answer, the purging loop of `gc` makes no
  -- other requests than the teardown of machines that are no base and whose slot, as the pools'
  -- names read it, is not active.
  pub purge_orphans-ClearsOrphan :
      (vms : List (Text × VmState)) (h : History)
      → Extends (ClearsOrphan bases pools active) h (purge_orphans sys bases pools active vms h).1
  unfolding purge_orphans
  purge_orphans-ClearsOrphan [] h = unchanged
  purge_orphans-ClearsOrphan ((name, state) ∷ vms) h = elim (Bool-cases (is_base bases name)) [
    | inl base ↦ rw base (purge_orphans-ClearsOrphan vms h)
    | inr other ↦ elim (Bool-cases (is_orphan pools active name)) [
      | inr used ↦ rw (other, used) (purge_orphans-ClearsOrphan vms h)
      | inl orphan ↦
          let h' = (purge sys name h).1 in
          let first =
            Extends-mono {Q = ClearsOrphan bases pools active}
              (λ r t. record { name = name; not_base = other; unused = orphan; teardown = t })
              (purge-TearsDown sys name h) in
          rw (other, orphan)
            (Extends-trans first (
              Extends-proceed (purge_orphans sys bases pools active vms h') _
                (purge_orphans-ClearsOrphan vms h') (λ n h2. unchanged)))
    ]
  ]
