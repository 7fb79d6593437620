-- ===== src/Commands/Gc.antt =====
-- `gc` of src/commands.rs: it purges the machines of the fleet that no active unit runs, and deletes
-- the records of its offline runners.
pub mod Spares
use vmfleet.Prelude.{
  ℕ, ◌+◌, suc, List, [], ◌∷◌, Bool, true, false, not, ◌&&◌, Option, some, none, Result, ok, err,
  if◌then◌else◌, any, contains, filter, filter_map, find_map,
}
use vmfleet.Prelude.Text.{Text, text_eq, starts_with}
use vmfleet.Prelude.Act.{◌>>=◌, ◌>>◌, pure, try_, proceed, fail}
use vmfleet.World.{System, Io, Failure, History, config_failed}
use vmfleet.Naming.{vm_prefix, worker_unit_glob, slot_from_unit, slot_of_vm}
use vmfleet.Config.{Base, Pool, ConfigError}
use vmfleet.Github.{Runner, Client, online}
use vmfleet.Multipass.{VmState, list_prefixed, purge}
use vmfleet.Systemd.{list_active}

unfoldable pub is_base : List Base → Text → Bool
is_base bases name = any (λ b. text_eq b.name name) bases

-- The slot of a machine, by the first pool whose name reads one.
unfoldable pub slot_in_pools : List Pool → Text → Option ℕ
slot_in_pools pools name = find_map (λ p. slot_of_vm p.name name) pools

abbrev orphan_slot : List ℕ → Option ℕ → Bool
orphan_slot active none = true
orphan_slot active (some s) = not (contains s active)

unfoldable pub is_orphan : List Pool → List ℕ → Text → Bool
unfolding slot_in_pools
is_orphan pools active name = orphan_slot active (slot_in_pools pools name)

abbrev ok_units : Result Failure (List Text) → List Text
ok_units (ok us) = us
ok_units (err e) = []

abbrev ok_runners : Result Failure (List Runner) → List Runner
ok_runners (ok rs) = rs
ok_runners (err e) = []

module _ (sys : System) (bases : List Base) (pools : List Pool) where
  -- The loop over the machines, for the number of those purged.
  unfoldable pub purge_orphans : List ℕ → List (Text × VmState) → Io ℕ
  unfolding is_orphan
  purge_orphans active [] = pure 0
  purge_orphans active ((name, state) ∷ vms) =
      let skip = purge_orphans active vms in
      let clear : Io ℕ = do try_ (purge sys name); n ← purge_orphans active vms; pure (suc n)
      in if is_base bases name then skip else if is_orphan pools active name then clear else skip

  -- The loop over the runners, for the number of records deleted.
  delete_offline : Client → List Runner → Io ℕ
  delete_offline client [] = pure 0
  delete_offline client (r ∷ rs) = do
    try_ (client.delete_runner r.id)
    n ← delete_offline client rs
    pure (suc n)

  abbrev is_stale : Runner → Bool
  is_stale r = starts_with vm_prefix r.name && not (online r)

  -- `if let Ok(c) = Client::new(…)`: `none` is a client that could not be made.
  delete_stale : Option Client → Io ℕ
  unfolding delete_offline
  delete_stale none = pure 0
  delete_stale (some client) = do
    runners ← try_ client.list_runners
    delete_offline client (filter is_stale (ok_runners runners))

  delete_with : (Text → Option Client) → Result ConfigError Text → Io ℕ
  unfolding delete_stale
  delete_with connect (err e) = fail config_failed
  delete_with connect (ok t) = delete_stale (connect t)

  -- `gc` on a loaded configuration, its token and the client made of that; the numbers of machines
  -- purged and of records deleted. A token that cannot be read is an error behind the purges.
  unfoldable pub gc : (Text → Option Client) → Result ConfigError Text → Io (ℕ × ℕ)
  unfolding purge_orphans delete_with
  gc connect token = do
    units ← try_ (list_active sys worker_unit_glob)
    vms ← list_prefixed sys vm_prefix
    purged ← purge_orphans (filter_map slot_from_unit (ok_units units)) vms
    dereg ← delete_with connect token
    pure (purged, dereg)
