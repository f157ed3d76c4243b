-- ===== src/Seatbelt.antt =====
-- seatbelt.rs: the profile and the arguments of `sandbox-exec` on macOS.
pub mod Texts
pub mod Inputs
pub mod Network
pub mod Closed
pub mod Access
pub mod Filters
pub mod Keys
pub mod Rules
pub mod Values
pub mod Meaning
pub mod Globs
pub mod Regexes
pub mod Command
pub mod Files
pub mod Confined
