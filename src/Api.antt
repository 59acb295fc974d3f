-- ===== src/Api.antt =====
-- src/api: the interfaces to the firmware, from the host, from the guest and for a launch.
pub mod Launch
pub mod Guest
pub mod Platform
