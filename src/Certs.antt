-- ===== src/Certs.antt =====
-- src/certs: usages and algorithms, the two kinds of certificate and the chains of them.
pub mod Usage
pub mod Ca
pub mod Csv
pub mod Chain
pub mod RoundTrip
pub mod Sizes
pub mod Encode
pub mod Trust
pub mod Builtin
