-- ===== src/Paths.antt =====
-- Paths: `std::path` as the crate uses it, and path.rs.
pub mod Std
pub mod Absolute
pub mod Canonical
pub mod Prefix
pub mod Normal
pub mod Named
pub mod Guarantees
