-- ===== src/Selfupdate.antt =====
-- src/selfupdate.rs: versions and their order, the choice of a release, and the update of the
-- program by one.
pub mod Version
pub mod Names
pub mod Download
pub mod Choice
pub mod Install
