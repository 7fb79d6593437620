-- ===== src/Supervisor/Cycle.antt =====
-- `reconcile` of src/supervisor.rs, and the loop of `run` for a number of rounds.
pub mod Idle
pub mod Succeeds
use vmfleet.Prelude.{
  ℕ, zero, suc, ◌+◌, ◌%◌, max, List, [], ◌∷◌, ◌++◌, Bool, true, false, not, ◌&&◌, Option, some,
  none, Result, ok, err, if◌then◌else◌, ◌==◌, filter, filter_map,
}
use vmfleet.Prelude.Text.{Text, codes, text_mem}
use vmfleet.Prelude.Decimal.{decimal, u64_mod}
use vmfleet.Prelude.Act.{◌>>=◌, ◌>>◌, pure, try_, for_each, fail}
use vmfleet.World.{System, Io, Failure, now, wall_clock, total, pause}
use vmfleet.Naming.{worker_unit_glob, slot_from_unit}
use vmfleet.Config.{Config}
use vmfleet.Resources.{Floats, mem_available_mib, mem_psi_some_avg10, disk_free_gib}
use vmfleet.Admission.{Block, low_mem, high_psi, low_disk, blocked, or_max}
use vmfleet.Github.{Runner, Client}
use vmfleet.Systemd.{reset_failed, list_failed, list_active}
use vmfleet.Supervisor.Demand.{headroom_vms}
use vmfleet.Supervisor.Observe.{is_idle}
use vmfleet.Supervisor.Scale.{IdleSince, since, PoolReport, reconcile_pools}
use vmfleet.Supervisor.Update.{SupState, maybe_update_check}
use vmfleet.Supervisor.Report.{Report, write_status, write_metrics}

-- The names of the online runners that are not busy, in the order of the list.
unfoldable pub idle_names : List Runner → List Text
idle_names [] = []
idle_names (r ∷ rs) = let rest = idle_names rs in if is_idle r then r.name ∷ rest else rest

abbrev is_set : Option ℕ → Bool
is_set none = false
is_set (some t) = true

module _ (sys : System) where
  -- `entry(name).or_insert_with(Instant::now)`
  enter : Text → IdleSince → Io IdleSince
  enter name m = if is_set (since name m) then pure m else (do t ← now sys; pure ((name, t) ∷ m))

  enter_all : List Text → IdleSince → Io IdleSince
  unfolding enter
  enter_all [] m = pure m
  enter_all (name ∷ names) m = do m' ← enter name m; enter_all names m'

  -- `retain`, then the entries of the runners that have become idle.
  unfoldable pub refresh_idle : List Runner → IdleSince → Io IdleSince
  unfolding enter_all
  refresh_idle runners m =
      let names = idle_names runners in enter_all names (filter (λ e. text_mem e.0 names) m)

abbrev is_multiple_of : ℕ → ℕ → Bool
is_multiple_of n d = n % d == 0

abbrev ok_or_nil : Result Failure (List Text) → List Text
ok_or_nil (ok us) = us
ok_or_nil (err e) = []

module _ {F : Type 0} (fl : Floats F) where
  -- `Display` of a block.
  unfoldable pub show_block : Block F → Text
  show_block (low_mem avail) = codes "low-mem (MemAvailable " ++ (decimal avail ++ codes " MiB)")
  show_block (high_psi psi) = codes "high-psi (some avg10 " ++ (fl.show_float psi ++ codes "%)")
  show_block (low_disk free) = codes "low-disk (" ++ (decimal free ++ codes " GiB free)")

  abbrev is_blocked : Option (Block F) → Bool
  is_blocked none = false
  is_blocked (some b) = true

  abbrev shown : Option (Block F) → Option Text
  shown none = none
  shown (some b) = some (show_block b)

  abbrev known : Option Text → Bool
  known none = false
  known (some v) = true

  module _ (sys : System) (env : Text → Option Text) (to_json : Report F → Option Text)
      (current_version : Text) (cfg : Config F) (cfg_path exe : Text) (client : Client)
      (dry_run : Bool) where
    sweep_failed : Io (Unit {0})
    sweep_failed =
        if dry_run
        then pure tt
        else (do units ← list_failed sys worker_unit_glob; for_each units (reset_failed sys))

    -- The queued jobs, asked for anew in every Nth cycle only.
    refresh_queued : SupState → Io SupState
    refresh_queued s =
        let next = (s.cycle + 1) % u64_mod in
        if is_multiple_of s.cycle (max cfg.supervisor.queued_poll_every 1)
        then (do
          queued ← total client.queued_labels
          pure (record s { cached_queued = queued; cycle = next }))
        else pure (record s { cycle = next })

    check_update : SupState → Io SupState
    check_update s =
        if cfg.supervisor.update_check && not dry_run
        then maybe_update_check sys cfg.supervisor current_version s
        else pure s

    write_report : Report F → Io (Unit {0})
    write_report r =
        if dry_run
        then pure tt
        else (do write_status fl sys env (to_json r); write_metrics fl sys env current_version r)

    make_report :
        ℕ → ℕ → F → Option ℕ → Option (Block F) → ℕ → List PoolReport → SupState → Report F
    make_report ts avail psi disk block room pools s = record {
      ts = ts;
      version = current_version;
      mem_avail_mib = avail;
      psi = psi;
      disk_free_gib = or_max disk;
      blocked = shown block;
      headroom_vms = room;
      pools = pools;
      update_available = known s.latest_version;
      latest_version = s.latest_version;
    }

    -- The part of `reconcile` behind the sampling of the host.
    act_on :
        List Runner
        → List ℕ
        → ℕ
        → F
        → Option ℕ
        → Option (Block F)
        → SupState
        → Io (Report F × SupState)
    unfolding make_report check_update write_report
    act_on runners active_slots avail psi disk block s1 = do
      let room = headroom_vms avail cfg.admission.min_avail_mib cfg.supervisor.busy_reserve_mib
      idle_since ← refresh_idle sys runners s1.idle_since
      let s2 : SupState = record s1 { idle_since = idle_since }
      done ←
          reconcile_pools sys cfg.supervisor cfg_path exe dry_run runners active_slots
            s2.cached_queued idle_since (is_blocked block) cfg.pools
            (record { launched_this_cycle = 0; headroom = room })
      s3 ← check_update s2
      ts ← wall_clock sys
      let report = make_report ts avail psi disk block room done.0 s3
      write_report report
      pure (report, s3)

    -- The active units and the samples of the host, and what is done with them.
    sample : List Runner → SupState → Io (Report F × SupState)
    unfolding act_on
    sample runners s1 = do
      units ← try_ (list_active sys worker_unit_glob)
      avail ← mem_available_mib sys
      psi ← mem_psi_some_avg10 fl sys
      disk ← disk_free_gib sys cfg.storage.vault_path
      block ← blocked fl sys cfg.admission cfg.storage.vault_path
      act_on runners (filter_map slot_from_unit (ok_or_nil units)) avail psi disk block s1

    unfoldable pub reconcile : SupState → Io (Report F × SupState)
    unfolding sweep_failed refresh_queued sample
    reconcile s = do
      runners ← client.list_runners
      sweep_failed
      s1 ← refresh_queued s
      sample runners s1

    after_round :
        Bool → Io (List (Report F)) → Result Failure (Report F × SupState) → Io (List (Report F))
    after_round true again (ok (report, s)) = pure (report ∷ [])
    after_round true again (err e) = fail e
    after_round false again (ok (report, s)) = do
      pause sys (max cfg.supervisor.poll_seconds 1)
      rest ← again
      pure (report ∷ rest)
    after_round false again (err e) = do pause sys (max cfg.supervisor.poll_seconds 1); again

    abbrev next_state : SupState → Result Failure (Report F × SupState) → SupState
    next_state s (ok (report, s')) = s'
    next_state s (err e) = s

    -- The loop of `run` for some rounds: the reports of those that succeeded. A round fails only
    -- before it changes the state.
    unfoldable pub run_rounds : Bool → ℕ → SupState → Io (List (Report F))
    unfolding after_round
    run_rounds once zero s = pure []
    run_rounds once (suc n) s = do
      r ← try_ (reconcile s)
      after_round once (run_rounds once n (next_state s r)) r
