-- ===== src/Commands.antt =====
-- src/commands.rs: `gc`, `scale`, `uninstall`, `build-base` and `install`.
pub mod Gc
pub mod Scale
pub mod Uninstall
pub mod BuildBase
pub mod Install
pub mod Setup
pub mod Rescale
