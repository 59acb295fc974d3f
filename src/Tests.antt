-- ===== src/Tests.antt =====
-- Concrete libraries and inputs, and the properties at them.
pub mod Toy
mod Symm
mod Tenant
mod Starts
mod Sessions
pub mod Samples
mod Trusted
mod Certificates
mod Launches
pub mod Guests
mod Clients
mod Kernels
mod Launchers
mod Platforms
mod Wholes
mod Caches
