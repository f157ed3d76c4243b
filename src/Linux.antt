-- ===== src/Linux.antt =====
-- The Linux engine: bwrap_runner.rs, run_main.rs and proxy_routing.rs.
pub mod Host
pub mod Types
pub mod Returns
pub mod Walk
pub mod Masks
pub mod Globs
pub mod Plan
pub mod Runner
pub mod Seccomp
pub mod Launch
pub mod Registry
pub mod Routing
