-- ===== src/Tests/Machines.antt =====
-- The life of a machine of src/worker.rs at the sample host, with a client that finds one runner.
use vmfleet.Prelude.{
  ℕ, some, Option, refl, ◌%◌, ◌+◌, [], ◌∷◌, false, none, ok, err, ◌≡◌, ◌≢◌, arith,
}
use vmfleet.Prelude.Text.{Text, codes}
use vmfleet.Prelude.Decimal.{u64_mod}
use vmfleet.Prelude.Act.{Returns}
use vmfleet.Supervisor.Report.{Report}
use vmfleet.Supervisor.Update.{fresh_state}
use vmfleet.Supervisor.Cycle.{reconcile}
use vmfleet.Supervisor.Cycle.Succeeds.{Reports, reconcile-Reports}
use vmfleet.World.{read_clock, http, Extends, unchanged, asked, unfinished}
use vmfleet.Github.{Runner, Client, IsRemote, Remote}
use vmfleet.Naming.{slot_vm_prefix}
use vmfleet.Admission.{nanos}
use vmfleet.Worker.Sweep.{sweep_leftovers}
use vmfleet.Worker.Sweep.Stale.{Sweeps, sweep_leftovers-Sweeps}
use vmfleet.Worker.Health.{wait_registration}
use vmfleet.Worker.Health.Registration.{wait_registration-finishes}
use vmfleet.Worker.Lifecycle.Tracked.{Tracks}
use vmfleet.Worker.Lifecycle.{before_clone, lifecycle, work}
use vmfleet.Worker.Lifecycle.Cleanup.{IsCleanedUp, work-IsCleanedUp}
use vmfleet.Tests.Sample.{small, fleet, whole_floats, host, host-IsClock}

abbrev machine : Text
machine = codes "vmfleet-small-101-1700-42"

abbrev registered : Runner
registered = record {
  id = 7;
  name = machine;
  status = codes "online";
  busy = false;
  labels = codes "small" ∷ [];
}

abbrev server : Client
server = record {
  reachable = λ h. (ok tt, http (codes "GET") (codes "/") none none ∷ h);
  list_runners = λ h. (ok (registered ∷ []), http (codes "GET") (codes "/runners") none none ∷ h);
  registration_token = λ h. (ok (codes "t"), http (codes "POST") (codes "/token") none none ∷ h);
  generate_jitconfig =
      λ name labels h. (ok (codes "j"), http (codes "POST") (codes "/jit") none none ∷ h);
  queued_labels = λ h. ([], http (codes "GET") (codes "/runs") none none ∷ h);
  delete_runner = λ id h. (ok tt, http (codes "DELETE") (codes "/runner") none none ∷ h);
}

server-IsRemote : IsRemote server
server-IsRemote = record {
  lists = λ h. asked unchanged _ (Remote.calls (codes "GET") (codes "/runners") none none);
  deletes = λ id h. asked unchanged _ (Remote.calls (codes "DELETE") (codes "/runner") none none);
}

abbrev state_file : Text
state_file = codes "/state/101"

abbrev lock : Text
lock = codes "/state/lock"

sweep_leftovers-Sweeps_example :
    Extends
      (Sweeps (slot_vm_prefix (codes "small") 101) machine state_file)
      []
      (sweep_leftovers host server (slot_vm_prefix (codes "small") 101) machine state_file []).1
sweep_leftovers-Sweeps_example =
    sweep_leftovers-Sweeps host server server-IsRemote (slot_vm_prefix (codes "small") 101) machine
      state_file []

wait_registration-finishes_example :
    (wait_registration host server machine 182 10
      (host.on_clock (read_clock ∷ []) + nanos 180)
      (read_clock ∷ [])).0
    ≢ err unfinished
wait_registration-finishes_example =
    wait_registration-finishes host host-IsClock server server-IsRemote machine 10 (omega arith) 180
      []

work-IsCleanedUp_example :
    let x =
      lifecycle whole_floats host server fleet small
        (codes "small")
        101
        machine
        state_file
        9
        none
        lock
        (before_clone, []) in
    let y =
      work whole_floats host server fleet small
        (codes "small")
        101
        machine
        state_file
        9
        none
        lock
        [] in
    (y.0 ≡ x.0)
    × Tracks whole_floats host server fleet small
        (codes "small")
        101
        machine
        state_file
        9
        none
        lock
        []
        x.1.0
    × IsCleanedUp machine state_file x.1.0 x.1.1 y.1
work-IsCleanedUp_example =
    work-IsCleanedUp whole_floats host server server-IsRemote fleet small (codes "small") 101
      machine state_file 9 none lock []

abbrev no_env : Text → Option Text
no_env name = none

abbrev to_json : Report ℕ → Option Text
to_json r = some (codes "{}")

abbrev version : Text
version = codes "0.2.0"

reconcile-Reports_example :
    Returns
      (reconcile whole_floats host no_env to_json version fleet lock machine server false
        fresh_state [])
      (λ r _.
        Reports whole_floats host no_env to_json version fleet lock machine server false
          ((fresh_state.cycle + 1) % u64_mod)
          r)
reconcile-Reports_example =
    reconcile-Reports whole_floats host no_env to_json version fleet lock machine server false
      fresh_state (registered ∷ []) [] (http (codes "GET") (codes "/runners") none none ∷ []) refl
