-- ===== src/Worker/Sweep.antt =====
-- `sweep_leftovers` and `reap` of src/worker.rs: what a crashed worker of the slot left behind.
pub mod Stale
use vmfleet.Prelude.{
  ℕ, List, [], ◌∷◌, Bool, true, false, not, ◌&&◌, Option, some, none, Result, ok, err,
  if◌then◌else◌, ◌==◌, filter, length,
}
use vmfleet.Prelude.Text.{Text, text_eq, starts_with}
use vmfleet.Prelude.Words.{trim}
use vmfleet.Prelude.Act.{◌>>=◌, ◌>>◌, pure, try_}
use vmfleet.World.{System, Io, Failure, read_text}
use vmfleet.Github.{Runner, Client}
use vmfleet.Multipass.{VmState, list_prefixed, purge}

abbrev ok_runners : Result Failure (List Runner) → List Runner
ok_runners (ok rs) = rs
ok_runners (err e) = []

abbrev ok_vms : Result Failure (List (Text × VmState)) → List (Text × VmState)
ok_vms (ok vms) = vms
ok_vms (err e) = []

module _ (sys : System) (client : Client) where
  delete_all : List Runner → Io (Unit {0})
  delete_all [] = pure tt
  delete_all (r ∷ rs) = do try_ (client.delete_runner r.id); delete_all rs

  -- The deletion of all records of the name; a failure of the calls is ignored.
  unfoldable pub deregister : Text → Io (Unit {0})
  unfolding delete_all
  deregister name = do
    r ← try_ client.list_runners
    delete_all (filter (λ x. text_eq x.name name) (ok_runners r))

  unfoldable pub reap : Text → Io (Unit {0})
  unfolding deregister
  reap name = do deregister name; try_ (purge sys name); pure tt

  module _ (prefix vm_name : Text) where
    -- Whether the text of the state file names a machine to reap.
    abbrev pub is_left : Text → Bool
    is_left old = (not (length old == 0) && not (text_eq old vm_name)) && starts_with prefix old

    reap_old : Option Text → Io (Unit {0})
    unfolding reap
    reap_old none = pure tt
    reap_old (some text) = let old = trim text in if is_left old then reap old else pure tt

    reap_listed : List (Text × VmState) → Io (Unit {0})
    unfolding reap
    reap_listed [] = pure tt
    reap_listed ((name, state) ∷ vms) =
        let skip = reap_listed vms in
        if text_eq name vm_name then skip else (reap name >> reap_listed vms)

    unfoldable pub sweep_leftovers : Text → Io (Unit {0})
    unfolding reap_old reap_listed
    sweep_leftovers state_file = do
      old ← read_text sys state_file
      reap_old old
      vms ← try_ (list_prefixed sys prefix)
      reap_listed (ok_vms vms)
