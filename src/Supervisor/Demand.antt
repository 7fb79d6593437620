-- ===== src/Supervisor/Demand.antt =====
-- `desired` and `headroom_vms` of src/supervisor.rs.
use vmfleet.Prelude.{ℕ, ◌+◌, ◌-◌, ◌/◌, ◌%◌, ◌≤◌, ◌<◌, min, max, ◌≡◌, arith}
use vmfleet.Prelude.Decimal.{u32_mod}

-- `saturating_add` of two u32
abbrev pub saturating_add : ℕ → ℕ → ℕ
saturating_add a b = min (a + b) (u32_mod - 1)

-- `Ord::clamp`, for a lower bound that is not above the upper one (it panics else).
abbrev pub clamp : ℕ → ℕ → ℕ → ℕ
clamp x lo hi = max lo (min x hi)

unfoldable pub desired : ℕ → ℕ → ℕ → ℕ → ℕ
desired busy queued min_warm cap =
    clamp (saturating_add (saturating_add busy queued) min_warm) min_warm cap

-- The quotient is a u64 that is cut to a u32.
unfoldable pub headroom_vms : ℕ → ℕ → ℕ → ℕ
headroom_vms avail_mib min_avail_mib busy_reserve_mib =
    (avail_mib - min_avail_mib) / max busy_reserve_mib 1 % u32_mod

-- The desired number lies between the warm floor and the cap. Where the demand fits below the cap
-- it is met exactly, and where it does not the cap is asked for; for the numbers that a u32 holds.
pub desired_lem :
    (busy queued min_warm cap : ℕ)
    → min_warm ≤ cap
    → cap < u32_mod
    → (min_warm ≤ desired busy queued min_warm cap)
      × (desired busy queued min_warm cap ≤ cap)
      × (desired busy queued min_warm cap ≡ min (busy + queued + min_warm) cap)
unfolding desired
desired_lem busy queued min_warm cap h k = omega arith

-- More busy machines or more queued jobs never lower the desired number.
pub desired_mono :
    (busy busy' queued queued' min_warm cap : ℕ)
    → busy ≤ busy'
    → queued ≤ queued'
    → desired busy queued min_warm cap ≤ desired busy' queued' min_warm cap
unfolding desired
desired_mono busy busy' queued queued' min_warm cap h k = omega arith
