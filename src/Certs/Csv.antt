-- ===== src/Certs/Csv.antt =====
-- src/certs/csv: the certificates of the platform.
pub mod Data
pub mod Cert
pub mod Chain
pub mod RoundTrip
pub mod ChainRoundTrip
pub mod Verify
pub mod Sign
pub mod SignVerify
pub mod Typed
pub mod Encrypt
