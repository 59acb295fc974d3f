-- ===== src/Api/Launch.antt =====
-- src/api/launch: policies, sessions, commands and the launch itself.
pub mod Policy
pub mod Session
pub mod SessionLaws
pub mod SessionSign
pub mod Secret
pub mod Types
pub mod Id
pub mod Command
pub mod Launcher
pub mod Steps
pub mod Protocol
pub mod Handles
pub mod Watch
pub mod Delivery
pub mod Refusals
