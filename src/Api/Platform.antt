-- ===== src/Api/Platform.antt =====
-- src/api/platform: the management of the platform through its device.
pub mod Types
pub mod Command
pub mod Firmware
pub mod Identifier
pub mod Answers
pub mod Delivery
