-- ===== src/Tests/Fleet.antt =====
-- A cycle of src/supervisor.rs over the sample pools.
use vmfleet.Prelude.{ℕ, ◌+◌, ◌≤◌, min, List, [], ◌∷◌, true, false, ◌≡◌, arith}
use vmfleet.Prelude.Text.{Text, codes}
use vmfleet.Prelude.Act.{Returns}
use vmfleet.World.{read_clock, Extends}
use vmfleet.Github.{Runner}
use vmfleet.Supervisor.Demand.{desired, desired_lem}
use vmfleet.Supervisor.Scale.{Budget, IdleSince, reconcile_pools}
use vmfleet.Supervisor.Scale.DryRun.{reconcile_pools_dry}
use vmfleet.Supervisor.Cycle.{refresh_idle}
use vmfleet.Supervisor.Cycle.Idle.{IsRefreshed, refresh_idle-IsRefreshed}
use vmfleet.Config.{default_supervisor}
use vmfleet.Tests.Sample.{small, large, host}

abbrev config_path : Text
config_path = codes "/c.toml"

abbrev program : Text
program = codes "/bin/vmfleet"

-- An idle machine in slot 201.
abbrev idle_runner : Runner
idle_runner = record {
  id = 5;
  name = codes "vmfleet-large-201-1700-42";
  status = codes "online";
  busy = false;
  labels = codes "large" ∷ [];
}

abbrev queue : List (Text × ℕ)
queue = (codes "small", 3) ∷ []

abbrev idle_from : IdleSince
idle_from = (codes "vmfleet-large-201-1700-42", 0) ∷ []

abbrev budget : Budget
budget = record { launched_this_cycle = 0; headroom = 5 }

reconcile_pools_dry_example :
    Extends
      (λ r. r ≡ read_clock)
      []
      (reconcile_pools host default_supervisor config_path program true
        (idle_runner ∷ [])
        (201 ∷ [])
        queue
        idle_from
        false
        (small ∷ large ∷ [])
        budget
        []).1
reconcile_pools_dry_example =
    reconcile_pools_dry host default_supervisor config_path program (idle_runner ∷ []) (201 ∷ [])
      idle_from false queue (small ∷ large ∷ []) budget []

desired_lem_example :
    (1 ≤ desired 2 5 1 4) × (desired 2 5 1 4 ≤ 4) × (desired 2 5 1 4 ≡ min (2 + 5 + 1) 4)
desired_lem_example = desired_lem 2 5 1 4 (omega arith) (omega arith)

refresh_idle-IsRefreshed_example :
    Returns
      (refresh_idle host (idle_runner ∷ []) idle_from [])
      (λ m' _. IsRefreshed host (codes "vmfleet-large-201-1700-42") (idle_runner ∷ []) idle_from m')
refresh_idle-IsRefreshed_example =
    refresh_idle-IsRefreshed host (codes "vmfleet-large-201-1700-42") (idle_runner ∷ []) idle_from
      []
