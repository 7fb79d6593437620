-- ===== src/Admission/Decision.antt =====
-- When src/admission.rs lets a launch proceed.
use vmfleet.Prelude.{ℕ, ◌≤◌, false, none, ◌≡◌, ◌↔◌, arith}
use vmfleet.Config.{Admission}
use vmfleet.Resources.{Floats}
use vmfleet.Admission.{decide}

-- The host is not blocked exactly when the available memory and the free disk space reach their
-- thresholds and the memory pressure does not reach its own.
pub decide-eq-none :
    {F : Type 0} (fl : Floats F) (avail : ℕ) (psi : F) (disk : ℕ) (cfg : Admission F)
    → (decide fl avail psi disk cfg ≡ none)
      ↔ ((cfg.min_avail_mib ≤ avail) × (fl.ge psi cfg.psi_max ≡ false) × (cfg.min_disk_gib ≤ disk))
unfolding decide
decide-eq-none fl avail psi disk cfg = (λ h. ground arith, λ h. ground arith)
