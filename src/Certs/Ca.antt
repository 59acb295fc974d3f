-- ===== src/Certs/Ca.antt =====
-- src/certs/ca: the certificates of HYGON's certificate authority.
pub mod Data
pub mod Cert
pub mod Chain
pub mod RoundTrip
pub mod ChainRoundTrip
pub mod Verify
