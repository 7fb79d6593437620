-- ===== src/Tests.antt =====
-- Runs of the model on concrete data, and the theorems at such data.
mod Sample
mod Names
mod Fleet
mod Host
mod Releases
mod Machines
mod Server
mod Update
mod Teardown
mod Threads
mod Installing
mod Start
