-- ===== src/Linux/Routing.antt =====
-- linux/proxy_routing.rs: the sockets that lead from a network namespace to the proxies of the host.
pub mod Plan
pub mod Directories
pub mod Host
pub mod Activate
pub mod Asked
pub mod Loopback
pub mod Names
pub mod Sockets
pub mod Prepared
pub mod Owner
pub mod Results
pub mod Bridges
pub mod Values
pub mod Rewritten
