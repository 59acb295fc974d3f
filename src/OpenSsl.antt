-- ===== src/OpenSsl.antt =====
-- What the crate calls of OpenSSL and of the rust-openssl bindings: the parameters of the model,
-- and the documented behaviour that the theorems rely on.
use csv_rs.Base.{true, ◌≤◌, some, length, ℕ, ◌≡◌, Bytes, ◌++◌, replicate, Bool, IsBytes}
use csv_rs.Base.{true, ◌≤◌, some, length, Outcome, ok, Option}
use csv_rs.Error.{IoError}

-- Curve numbers; the crate knows that of SM2.
pub data Nid : Type 0 where
  sm2 : Nid
  other : ℕ → Nid

-- Big numbers and DER-encoded signatures.
pub record BigNums : Type 1 where
  pub BigNum : Type 0
  -- `BigNum::from_slice`, from big-endian bytes, and `BigNumRef::to_vec`, back to them.
  pub from_slice : Bytes → Outcome IoError BigNum
  pub to_vec : BigNum → Bytes
  pub EcdsaSig : Type 0
  pub from_der : Bytes → Outcome IoError EcdsaSig
  pub to_der : EcdsaSig → Outcome IoError Bytes
  pub r : EcdsaSig → BigNum
  pub s : EcdsaSig → BigNum
  pub from_private_components : BigNum → BigNum → Outcome IoError EcdsaSig

-- The bytes of a number are bytes, and leading zeros do not change what is read back; a signature
-- is its two components.
pub record BigNumLaws (o : BigNums) : Type 0 where
  pub to_vec-IsBytes : (b : o.BigNum) → IsBytes (o.to_vec b)
  pub from_slice_padded : (k : ℕ) (b : o.BigNum) → o.from_slice (replicate k 0 ++ o.to_vec b) ≡ ok b
  pub from_private_components_parts :
      (g : o.EcdsaSig) → o.from_private_components (o.r g) (o.s g) ≡ ok g

-- Elliptic-curve keys and SM2 signatures.
pub record Sm2Lib : Type 1 where
  pub Number : Type 0
  pub EcKey : Type 0
  pub Pkey : Type 0
  -- What the outside decides in the course of one call: random bits, and whether there is memory.
  pub Env : Type 0
  pub pkey_allocated : Env → Bool
  pub key_allocated : Env → Bool
  -- `BN_bin2bn`
  pub bin2bn : Bytes → Number
  -- `BN_bn2binpad`, which fails on a number of more bytes.
  pub bn2binpad : Number → ℕ → Option Bytes
  -- `EC_KEY_new_by_curve_name(NID_sm2)`
  pub ec_key_sm2 : EcKey
  -- `EC_KEY_set_public_key_affine_coordinates`: the key afterwards. The caller drops its verdict.
  pub set_affine_coordinates : EcKey → Number → Number → EcKey
  -- `EC_KEY_set_group` and `EC_KEY_generate_key` on a new key, on the group of the curve's number.
  pub set_group : Nid → Option EcKey
  pub generate_key : EcKey → Env → Option EcKey
  -- `EC_POINT_get_affine_coordinates` of the public key.
  pub get_affine_coordinates : EcKey → Option (Number × Number)
  -- `EVP_PKEY_assign`, which may fail.
  pub pkey_assign : EcKey → Option Pkey
  -- `EVP_DigestSign` over SM3 with an id: the room that it asks for, and what it then writes.
  pub digest_sign_room : Pkey → Bytes → ℕ
  pub digest_sign : Pkey → Bytes → Bytes → Env → Bytes
  -- `EVP_DigestVerifyFinal(..) == 1` over SM3, for an id, a message and a signature.
  pub digest_verify : Pkey → Bytes → Bytes → Bytes → Bool

-- Padded bytes give the number back; a signature fits the room that was asked for, and verifies
-- under the public half of the key that made it, with the same id and message.
pub record Sm2Laws (l : Sm2Lib) : Type 0 where
  pub bn2binpad-bin2bn :
      (n : l.Number) (k : ℕ) (b : Bytes)
      → l.bn2binpad n k ≡ some b
      → (length b ≡ k) × (l.bin2bn b ≡ n)
  pub digest_sign-fits :
      (p : l.Pkey) (id msg : Bytes) (e : l.Env)
      → length (l.digest_sign p id msg e) ≤ l.digest_sign_room p msg
  pub digest_verify-digest_sign :
      (k : l.EcKey) (x y : l.Number) (p : l.Pkey) (id msg : Bytes) (e : l.Env)
      → l.get_affine_coordinates k ≡ some (x, y)
      → l.pkey_assign k ≡ some p
      → (q : l.Pkey) × (l.pkey_assign (l.set_affine_coordinates l.ec_key_sm2 x y) ≡ some q)
        × (l.digest_verify q id msg (l.digest_sign p id msg e) ≡ true)

-- SM2 signatures are the DER encoding of two numbers below the order of the curve, of 32 bytes.
pub record DerLaws (l : Sm2Lib) (o : BigNums) : Type 0 where
  pub digest_sign-der :
      (p : l.Pkey) (id msg : Bytes) (e : l.Env)
      → (g : o.EcdsaSig) × (o.from_der (l.digest_sign p id msg e) ≡ ok g)
        × (o.to_der g ≡ ok (l.digest_sign p id msg e))
        × (length (o.to_vec (o.r g)) ≤ 32)
        × (length (o.to_vec (o.s g)) ≤ 32)
