-- ===== src/Crypto.antt =====
-- src/crypto/mod.rs: signatures and public keys, and the check of one against the other.
pub mod Ecc
pub mod Verify
pub mod Ecdsa
pub mod Sm2
pub mod KeyStore
pub mod Signing
pub mod Kdf
pub mod Points
pub mod Encrypt
pub mod Owner
pub mod EcKey
use csv_rs.Base.{ℕ, Bool, true, false, not, ◌&&◌, ◌||◌, ◌==◌, bytes_eq, Bytes, Option, none, some}
use csv_rs.Base.{Outcome, ok, err, ◌>>=◌, ◌>>◌, fail_if, if◌then◌else◌}
use csv_rs.Error.{IoError, of_kind, invalid_input, not_found}
use csv_rs.OpenSsl.{Sm2Lib}
use csv_rs.Certs.Usage.{Usage, Algorithm, MessageDigest}
use csv_rs.Crypto.Ecc.{PubKey}

pub record Signature : Type 0 where
  pub id : Option Bytes
  pub sig : Bytes
  pub algo : Option Algorithm
  pub usage : Usage

pub record PublicKey : Type 0 where
  pub id : Option Bytes
  pub key : PubKey
  pub algo : Option Algorithm
  pub usage : Usage

-- `PrivateKey<Usage>`; its `hash` is SM3 whatever the algorithm.
pub record PrivateKey (Key : Type 0) : Type 0 where
  pub id : Option Bytes
  pub key : Key
  pub hash : MessageDigest
  pub usage : Usage

-- `x.is_none() || x == y`, for the ids and for the algorithms.
unfoldable pub id_agrees : Option Bytes → Option Bytes → Bool
id_agrees none theirs = true
id_agrees (some a) none = false
id_agrees (some a) (some b) = bytes_eq a b

unfoldable pub algo_agrees : Option Algorithm → Option Algorithm → Bool
algo_agrees none theirs = true
algo_agrees (some a) none = false
algo_agrees (some a) (some b) = a == b

module _ (l : Sm2Lib) where
  -- `PublicKey::verify`; `encoded` is what `msg.encode` writes or fails with.
  unfoldable pub verify :
      PublicKey → Outcome IoError Bytes → Bytes → Signature → Outcome IoError (Unit {0})
  verify key encoded uid sig = do
    let usage_valid = sig.usage == key.usage
    let algo_valid = algo_agrees sig.algo key.algo
    let id_valid = id_agrees sig.id key.id
    fail_if (not usage_valid || not algo_valid || not id_valid) (of_kind invalid_input)
    buf ← encoded
    valid ← Sm2.verify l key.key sig.sig uid buf
    if valid then ok tt else err (of_kind not_found)
