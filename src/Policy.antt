-- ===== src/Policy.antt =====
-- policy.rs
pub mod Types
pub mod Grants
pub mod Resolve
pub mod Metadata
pub mod Precedence
pub mod Access
pub mod Specific
pub mod Dedup
pub mod Defaults
pub mod Legacy
pub mod Build
pub mod Roots
pub mod Bridge
pub mod Matcher
pub mod WellFormed
pub mod Targets
pub mod FullDisk
pub mod Deny
pub mod Added
pub mod Extend
pub mod Materialize
pub mod Protect
pub mod First
pub mod Child
pub mod Reported
pub mod Distinct
pub mod Listed
pub mod RoundTrip
pub mod ReadDeny
