-- ===== src/Worker.antt =====
-- src/worker.rs: the life of one machine, and the two threads of a worker.
pub mod Sweep
pub mod Health
pub mod Lifecycle
pub mod Signals
