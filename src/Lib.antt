-- ===== src/Lib.antt =====
-- csv-rs, the Rust library for the interfaces of HYGON's CSV firmware: certificates and their
-- chains, signatures, the errors of the firmware, the packets that start an encrypted guest and
-- the reports that a guest asks for.
--
-- The parts and the files that model them:
-- * Error (src/error.rs): the errors, their numbers and texts; Error.Laws proves.
-- * Util and its children (src/util/mod.rs): a reader is the bytes to come, a writer the bytes
--   so far; Util.Memory describes the memory layout of structures, Util.BigNum the byte order
--   of numbers.
-- * Version (src/lib.rs): versions and builds.
-- * Certs.Usage (src/certs/mod.rs): usages and algorithms.
-- * Certs.Ca (src/certs/ca): Data has the structures, Cert the operations of a certificate,
--   Chain those of the chain; Certs.Csv (src/certs/csv) is laid out the same way, and
--   Certs.Chain (src/certs/chain.rs) puts the two together. Certs.Builtin (src/certs/builtin)
--   has the bytes of the built-in root. RoundTrip, Sizes, Encode, Verify, Sign, SignVerify,
--   Typed and Trust prove.
-- * Crypto (src/crypto/mod.rs), Crypto.Ecc and Crypto.EcKey (src/crypto/key), Crypto.Ecdsa
--   (src/crypto/sig/ecdsa.rs), Crypto.Sm2, Crypto.KeyStore (who frees a private key),
--   Crypto.Kdf, Crypto.Points (the random point of an encryption) and Crypto.Encrypt
--   (src/crypto/sm.rs); Crypto.Verify, Crypto.Signing and Crypto.Owner prove.
-- * Api.Launch (src/api/launch): Policy, Session (the structures and the start packet),
--   SessionSign and Secret (mod.rs); Types (types.rs), Id and Command (ioctl.rs) and Launcher
--   (the calls of mod.rs on a launcher). SessionLaws, Steps (the calls as a relation),
--   Protocol, Handles, Watch, Delivery and Refusals prove.
-- * Api.Platform (src/api/platform): Types (types.rs), Command (ioctl.rs), Identifier and
--   Firmware (mod.rs); Answers and Delivery prove.
-- * Api.Guest (src/api/guest): GuestPolicy, Request, Signer (the evidence beside a report),
--   Report (the page of request and response), Device (asking for a report) and Client
--   (tests/guest.rs, a client that traces a report back to the root); SignerLaws, ReportLaws
--   and ClientLaws prove.
-- * Session.Key and Session.Mac (src/session/key.rs): keys, their derivation and MACs;
--   Session.Channel (src/session/mod.rs): the sessions and start packets of a tenant;
--   Session.Attest: measuring, checking and secrets; Session.Symm: what these call of OpenSSL.
--   Session.Derive, Wrap, Protected, Start, Filled, Octets, Typed, Steps, Launched, Inject and
--   Whole (which join the session and the launch) prove.
-- * Util.CachedChain (src/util/cached_chain.rs): the search for a chain; Util.CacheOrder
--   proves.
-- * Base has the shared helpers, Tests the concrete libraries, inputs and examples.
--
-- Certificates come from bytes (`decode`), from the firmware, or are generated with a key pair
-- (`generate`); a private key signs a certificate or a session (`sign`), a certificate's public
-- key checks these and reports (`verify`), and a chain is the order in which the certificates
-- of root, authority, chip, owner and platform check each other. A tenant's session makes a
-- start packet for such a chain, the launcher hands it to the kernel and gets a measurement
-- back, and the session makes secrets for the launcher to inject.
--
-- `Result` and panics are Outcome: `ok`, `err` with an io::Error, or `panicked` for a slice or
-- an index out of range. Integers are native numbers, those of a fixed width below a power of
-- two where a predicate such as IsCertificate says that a value is one of the Rust type. An
-- array is a list of its length (IsArray). The host is little-endian. What OpenSSL and its
-- bindings do is a parameter (BigNums, Sm2Lib, Sm3Lib, CurveLib, EcLib, HashLib, SymmLib), with
-- the documented behaviour as named laws (OctetLaws says that what they write are bytes,
-- CurveLaws that scalars multiply the generator in any order); random bits and the success of
-- allocations come with an environment argument. Random bytes are numbered by their draws. The
-- kernel (Kernel, Device) is a parameter too, from a state, a command and the process's memory
-- (Util.Heap, objects by their places) to those afterwards; a call gives the kernel's state
-- back in either case, and a type state is an index of the step relation, in which no caller
-- replaces the descriptor that `as_mut_vmfd` lends. Who owns and frees an object of OpenSSL's
-- is modelled for the private key of a signature alone (Crypto.KeyStore); Crypto.Sm2 and what
-- stands on it take keys by value. The only loop on fuel is that of the key derivation, with
-- one unit more than a thirty-second of the bytes asked for, which is one for each digest.
--
-- Not modelled: serialization by serde, Debug, the opening of devices, the numbers of the
-- ioctls and the drivers behind them, the zeroing of dropped keys and the build script.
pub mod Base
pub mod Error
pub mod OpenSsl
pub mod Util
pub mod Version
pub mod Certs
pub mod Crypto
pub mod Api
pub mod Session
mod Tests
