-- ===== src/Session.antt =====
-- src/session: the secure channel between a tenant and the secure processor.
pub mod Key
pub mod Derive
pub mod Symm
pub mod Mac
pub mod Channel
pub mod Attest
pub mod Wrap
pub mod Protected
pub mod Start
pub mod Filled
pub mod Octets
pub mod Typed
pub mod Launched
pub mod Steps
pub mod Inject
pub mod Whole
