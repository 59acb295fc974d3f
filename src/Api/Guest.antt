-- ===== src/Api/Guest.antt =====
-- src/api/guest: the attestation report that a guest asks the secure processor for.
pub mod GuestPolicy
pub mod Request
pub mod Signer
pub mod SignerLaws
pub mod Report
pub mod ReportLaws
pub mod Device
pub mod Client
pub mod ClientLaws
