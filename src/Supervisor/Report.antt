-- ===== src/Supervisor/Report.antt =====
-- The report of a cycle of src/supervisor.rs, and how it is written down. The printer of JSON is
-- given.
use vmfleet.Prelude.{ℕ, ◌++◌, List, [], ◌∷◌, Bool, true, false, Option, some, none, if◌then◌else◌}
use vmfleet.Prelude.Text.{Text, codes}
use vmfleet.Prelude.Decimal.{decimal}
use vmfleet.Prelude.Act.{◌>>=◌, ◌>>◌, pure}
use vmfleet.World.{System, Io, change, make_dir, write_file, rename_file}
use vmfleet.Paths.{state_dir, status_file, metrics_file, join}
use vmfleet.Resources.{Floats}
use vmfleet.Supervisor.Scale.{PoolReport}

pub record Report (F : Type 0) : Type 0 where
  pub ts : ℕ
  pub version : Text
  pub mem_avail_mib : ℕ
  pub psi : F
  pub disk_free_gib : ℕ
  pub blocked : Option Text
  pub headroom_vms : ℕ
  pub pools : List PoolReport
  pub update_available : Bool
  pub latest_version : Option Text

abbrev metric : Text → Text → Text
metric name value = name ++ (b' ' ∷ (value ++ 10 ∷ []))

-- vmfleet_pool_<key>{pool="<name>"} <value>
abbrev pool_metric : Text → Text → ℕ → Text
pool_metric key pool value =
    metric (codes "vmfleet_pool_" ++ (key ++ (codes "{pool=\"" ++ (pool ++ codes "\"}"))))
      (decimal value)

pool_metrics : List PoolReport → Text
pool_metrics [] = []
pool_metrics (p ∷ ps) =
    pool_metric (codes "idle") p.name p.idle
    ++ (pool_metric (codes "busy") p.name p.busy
        ++ (pool_metric (codes "queued") p.name p.queued
            ++ (pool_metric (codes "present") p.name p.present
                ++ (pool_metric (codes "desired") p.name p.desired ++ pool_metrics ps))))

abbrev bit : Bool → Text
bit true = codes "1"
bit false = codes "0"

abbrev given : Option Text → Bool
given none = false
given (some t) = true

abbrev or_text : Option Text → Text → Text
or_text none d = d
or_text (some t) d = t

module _ {F : Type 0} (fl : Floats F) where
  unfoldable pub metrics_text : Text → Report F → Text
  unfolding pool_metrics
  metrics_text current r =
      metric (codes "vmfleet_mem_available_mib") (decimal r.mem_avail_mib)
      ++ (metric (codes "vmfleet_memory_psi_some_avg10") (fl.show_float r.psi)
          ++ (metric (codes "vmfleet_disk_free_gib") (decimal r.disk_free_gib)
              ++ (metric (codes "vmfleet_headroom_vms") (decimal r.headroom_vms)
                  ++ (metric (codes "vmfleet_blocked") (bit (given r.blocked))
                      ++ (metric
                            (codes "vmfleet_update_available{current=\""
                              ++ (current
                                  ++ (codes "\",latest=\""
                                      ++ (or_text r.latest_version current ++ codes "\"}"))))
                            (bit r.update_available)
                          ++ pool_metrics r.pools)))))

  module _ (sys : System) (env : Text → Option Text) where
    -- The text goes to a file beside the target first, and takes its place by a rename.
    unfoldable pub replace_file : Text → Text → Text → Io (Unit {0})
    replace_file tmp target text = do
      made ← change sys (make_dir (state_dir env))
      if made
          then (do
            written ← change sys (write_file tmp text)
            if written then (change sys (rename_file tmp target) >> pure tt) else pure tt)
          else pure tt

    unfoldable pub write_metrics : Text → Report F → Io (Unit {0})
    unfolding replace_file
    write_metrics current r =
        replace_file (join (state_dir env) (codes "vmfleet.tmp")) (metrics_file env)
          (metrics_text current r)

    -- A report that cannot be printed is not written.
    unfoldable pub write_status : Option Text → Io (Unit {0})
    unfolding replace_file
    write_status none = pure tt
    write_status (some json) =
        replace_file (join (state_dir env) (codes "status.tmp")) (status_file env) json
