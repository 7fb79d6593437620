-- ===== src/Supervisor/Cycle/Succeeds.antt =====
-- When a cycle of src/supervisor.rs succeeds.
use vmfleet.Prelude.{
  ℕ, ◌+◌, ◌%◌, max, List, [], ◌∷◌, Bool, not, ◌&&◌, Option, none, some, Result, ok, ◌≡◌, ◌∙◌, refl,
  AllZip, end, both, ◌==◌,
}
use vmfleet.Prelude.Text.{Text}
use vmfleet.Prelude.Decimal.{u64_mod}
use vmfleet.Prelude.Act.{Returns, Returns-proceed, Returns-mono, Returns-if_call, for_each}
use vmfleet.World.{
  System, History, Failure, read_wall_clock, free_space, change, make_dir, write_file, run,
  wall_clock, read_text,
}
use vmfleet.Paths.{state_dir}
use vmfleet.Naming.{worker_unit_glob}
use vmfleet.Config.{Config, Pool}
use vmfleet.Resources.{Floats, mem_available_mib, mem_psi_some_avg10, disk_free_gib, gib_of}
use vmfleet.Admission.{Block, blocked}
use vmfleet.Github.{Runner, Client}
use vmfleet.Systemd.{reset_failed, list_failed, list_active}
use vmfleet.Supervisor.Demand.{headroom_vms}
use vmfleet.Supervisor.Scale.{PoolReport, Budget, reconcile_pools}
use vmfleet.Supervisor.Scale.Outcome.{reconcile_pools-IsFaithful}
use vmfleet.Supervisor.Update.{SupState}
use vmfleet.Supervisor.Update.Cycle.{SameCycle, maybe_update_check-SameCycle}
use vmfleet.Supervisor.Report.{Report, replace_file, write_status, write_metrics}
use vmfleet.Supervisor.Cycle.{
  is_blocked, make_report, act_on, sample, sweep_failed, refresh_queued, check_update, write_report,
  reconcile, refresh_idle,
}
use vmfleet.Supervisor.Cycle.Idle.{refresh_idle-IsRefreshed}

abbrev Succeeds : {A : Type 0} → Result Failure A × History → Type 0
Succeeds x = Returns x (λ _ _. Unit {0})

resets : (sys : System) (us : List Text) (h : History) → Succeeds (for_each us (reset_failed sys) h)
unfolding reset_failed run
resets sys [] h = tt
resets sys (u ∷ us) h = resets sys us _

names_of :
    {P : Pool → PoolReport → Type 0} {ps : List Pool} {rs : List PoolReport}
    → ((p : Pool) (r : PoolReport) → P p r → r.name ≡ p.name)
    → AllZip P ps rs
    → AllZip (λ p r. r.name ≡ p.name) ps rs
names_of k end = end
names_of k (both f more) = both (k _ _ f) (names_of k more)

module _ {F : Type 0} (fl : Floats F) (sys : System) (env : Text → Option Text)
    (to_json : Report F → Option Text) (current_version : Text) (cfg : Config F)
    (cfg_path exe : Text) (client : Client) (dry_run : Bool) where
  sweep_failed-Succeeds :
      (h : History)
      → Succeeds (sweep_failed fl sys env to_json current_version cfg cfg_path exe client dry_run h)
  unfolding sweep_failed list_failed run
  sweep_failed-Succeeds h = Returns-if_call dry_run _ _ h _ tt (resets sys _ _)

  -- The queue's refresh counts the cycle.
  refresh_queued-counts :
      (s : SupState) (h : History)
      → Returns
          (refresh_queued fl sys env to_json current_version cfg cfg_path exe client dry_run s h)
          (λ s' _. s'.cycle ≡ (s.cycle + 1) % u64_mod)
  unfolding refresh_queued
  refresh_queued-counts s h =
      Returns-if_call (s.cycle % max cfg.supervisor.queued_poll_every 1 == 0) _ _ h _ refl refl

  check_update-SameCycle :
      (s : SupState) (h : History)
      → SameCycle s
          (check_update fl sys env to_json current_version cfg cfg_path exe client dry_run s h)
  unfolding check_update
  check_update-SameCycle s h =
      Returns-if_call (cfg.supervisor.update_check && not dry_run) _ _ h _
        (maybe_update_check-SameCycle sys cfg.supervisor current_version s h) refl

  replace_file-Succeeds :
      (tmp target text : Text) (h : History) → Succeeds (replace_file fl sys env tmp target text h)
  unfolding replace_file change
  replace_file-Succeeds tmp target text h =
      Returns-if_call (sys.on_write (make_dir (state_dir env) ∷ h)) _ _
        (make_dir (state_dir env) ∷ h) _
        (Returns-if_call (sys.on_write (write_file tmp text ∷ make_dir (state_dir env) ∷ h)) _ _
          (write_file tmp text ∷ make_dir (state_dir env) ∷ h) _ tt tt)
        tt

  write_status-Succeeds : (o : Option Text) (h : History) → Succeeds (write_status fl sys env o h)
  unfolding write_status
  write_status-Succeeds none h = tt
  write_status-Succeeds (some json) h = replace_file-Succeeds _ _ json h

  write_report-Succeeds :
      (r : Report F) (h : History)
      → Succeeds
          (write_report fl sys env to_json current_version cfg cfg_path exe client dry_run r h)
  unfolding write_report write_metrics
  write_report-Succeeds r h = Returns-if_call dry_run _ _ h _ tt (
      Returns-proceed (write_status fl sys env (to_json r) h) _ _ _
        (write_status-Succeeds (to_json r) h) (λ _ h' _. replace_file-Succeeds _ _ _ h'))

  -- One report for each pool, in their order, at a later cycle.
  abbrev pub Reports : ℕ → Report F × SupState → Type 0
  Reports cycle r =
      AllZip (λ (p : Pool) (q : PoolReport). q.name ≡ p.name) cfg.pools r.0.pools
      × (r.1.cycle ≡ cycle)

  act_on-Reports :
      (runners : List Runner) (active_slots : List ℕ) (avail : ℕ) (psi : F) (disk : Option ℕ)
      (block : Option (Block F)) (s : SupState) (h : History)
      → Returns
          (act_on fl sys env to_json current_version cfg cfg_path exe client dry_run runners
            active_slots avail psi disk block s h)
          (λ r _. Reports s.cycle r)
  unfolding act_on wall_clock
  act_on-Reports runners active_slots avail psi disk block s h =
      Returns-proceed (refresh_idle sys runners s.idle_since h) _ _ _
        (refresh_idle-IsRefreshed sys [] runners s.idle_since h)
        (λ m h1 _.
          let b : Budget = record {
            launched_this_cycle = 0;
            headroom =
                headroom_vms avail cfg.admission.min_avail_mib cfg.supervisor.busy_reserve_mib;
          } in
          Returns-proceed
            (reconcile_pools sys cfg.supervisor cfg_path exe dry_run runners active_slots
              s.cached_queued m (is_blocked fl block) cfg.pools b h1)
            _ _ _
            (reconcile_pools-IsFaithful sys cfg.supervisor cfg_path exe dry_run runners active_slots
              m (is_blocked fl block) s.cached_queued cfg.pools b h1)
            (λ done h2 f.
              let s2 : SupState = record s { idle_since = m } in
              Returns-proceed
                (check_update fl sys env to_json current_version cfg cfg_path exe client dry_run s2
                  h2)
                _ _ _ (check_update-SameCycle s2 h2)
                (λ s3 h3 same.
                  let report =
                    make_report fl sys env to_json current_version cfg cfg_path exe client dry_run
                      (sys.on_wall_clock (read_wall_clock ∷ h3)) avail psi disk block b.headroom
                      done.0 s3 in
                  Returns-proceed
                    (write_report fl sys env to_json current_version cfg cfg_path exe client dry_run
                      report (read_wall_clock ∷ h3))
                    _ (λ _ _. Unit {0}) (λ r _. Reports s.cycle r)
                    (write_report-Succeeds report (read_wall_clock ∷ h3))
                    (λ _ h4 _. (names_of (λ p r g. g.named) f.0, same)))))

  sample-Reports :
      (runners : List Runner) (s : SupState) (h : History)
      → Returns
          (sample fl sys env to_json current_version cfg cfg_path exe client dry_run runners s h)
          (λ r _. Reports s.cycle r)
  unfolding sample mem_available_mib mem_psi_some_avg10 disk_free_gib blocked read_text
  sample-Reports runners s h =
      let h1 = (list_active sys worker_unit_glob h).1 in
      let h2 = (mem_psi_some_avg10 fl sys (mem_available_mib sys h1).1).1 in
      let disk = gib_of (sys.on_free_space (free_space cfg.storage.vault_path ∷ h2)) in
      act_on-Reports runners _ _ _ disk _ s _

  -- A cycle succeeds wherever the client lists the runners: whatever the commands, the files and
  -- the samples give, and whether launches, stops, the update check or the writing of the report
  -- fail. It then reports on each pool of the configuration, in their order, and counts the cycle.
  pub reconcile-Reports :
      (s : SupState) (runners : List Runner) (h h' : History)
      → client.list_runners h ≡ (ok runners, h')
      → Returns
          (reconcile fl sys env to_json current_version cfg cfg_path exe client dry_run s h)
          (λ r _. Reports ((s.cycle + 1) % u64_mod) r)
  unfolding reconcile
  reconcile-Reports s runners h h' listed = rw listed (
      Returns-proceed
        (sweep_failed fl sys env to_json current_version cfg cfg_path exe client dry_run h') _ _ _
        (sweep_failed-Succeeds h')
        (λ _ h1 _.
          Returns-proceed
            (refresh_queued fl sys env to_json current_version cfg cfg_path exe client dry_run s h1)
            _ _ _ (refresh_queued-counts s h1)
            (λ s1 h2 counted.
              Returns-mono
                (sample fl sys env to_json current_version cfg cfg_path exe client dry_run runners
                  s1 h2)
                _ _ (sample-Reports runners s1 h2)
                (λ r h3 (each, cycle). (each, cycle ∙ counted)))))
