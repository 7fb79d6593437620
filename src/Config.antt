-- ===== src/Config.antt =====
-- src/config.rs: the configuration, its defaults, and what is computed from it. A path and a name
-- is a text. The type `F` stands for `f64`, of which the program only compares values.
mod Types
pub mod Validate
pub mod Slots
pub mod Sound
pub mod Load
unfoldable pub use Types.*
