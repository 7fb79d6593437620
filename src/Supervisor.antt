-- ===== src/Supervisor.antt =====
-- src/supervisor.rs: the control plane. `Demand` and `Observe` are what a cycle computes from what
-- it reads, `Scale` holds the two loops over a pool's slots, `Update` the passive check for a
-- release, `Report` what is written down, `Cycle` is `reconcile` with the loop around it,
-- and `Start` is `run`.
pub mod Demand
pub mod Observe
pub mod Scale
pub mod Update
pub mod Report
pub mod Cycle
pub mod Start
