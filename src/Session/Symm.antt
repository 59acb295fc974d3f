-- ===== src/Session/Symm.antt =====
-- What the secure channel calls of OpenSSL's symmetric half, and what it relies on.
use csv_rs.Base.{ℕ, ◌+◌, ◌≡◌, Bytes, [], ◌++◌, length, Outcome, ok}
use csv_rs.Error.{IoError}
use csv_rs.Crypto.Encrypt.{xor_bytes}

-- Every step may fail. The random bytes of a run are numbered by their draws.
pub record SymmLib : Type 1 where
  pub rand_bytes : ℕ → ℕ → Outcome IoError Bytes
  -- `PKey::hmac` and a `Signer` over SM3, of the key and of all that was put in.
  pub hmac : Bytes → Bytes → Outcome IoError Bytes
  -- SM4 in counter mode, in steps from a key and a nonce.
  pub Crypter : Type 0
  pub crypter : Bytes → Bytes → Outcome IoError Crypter
  pub update : Crypter → Bytes → Outcome IoError (Bytes × Crypter)
  pub finalize : Crypter → Outcome IoError Bytes
  -- The same at once: `symm::encrypt`.
  pub encrypt : Bytes → Bytes → Bytes → Outcome IoError Bytes
  -- `hash::Hasher` over SM3.
  pub Hasher : Type 0
  pub hasher : Outcome IoError Hasher
  pub hash_update : Hasher → Bytes → Outcome IoError Hasher
  pub hash_finish : Hasher → Outcome IoError Bytes

-- Two parts put through a crypter, and what comes out at their end.
pub record Ciphered (y : SymmLib) (key iv a b stream : Bytes) : Type 0 where
  pub start : y.Crypter
  pub between : y.Crypter
  pub after : y.Crypter
  pub c1 : Bytes
  pub c2 : Bytes
  pub starts : y.crypter key iv ≡ ok start
  pub first : y.update start a ≡ ok (c1, between)
  pub second : y.update between b ≡ ok (c2, after)
  pub ends : y.finalize after ≡ ok []
  pub size1 : length c1 ≡ length a
  pub size2 : length c2 ≡ length b
  pub masked : c1 ++ c2 ≡ xor_bytes stream (a ++ b)

-- Where no step fails: a MAC has 32 bytes, and counter mode masks with a stream of bytes that key and
-- nonce determine, with nothing left over at the end.
pub record SymmLaws (y : SymmLib) : Type 0 where
  pub mac : Bytes → Bytes → Bytes
  pub hmac-mac : (key msg : Bytes) → y.hmac key msg ≡ ok (mac key msg)
  pub length-mac : (key msg : Bytes) → length (mac key msg) ≡ 32
  pub stream : Bytes → Bytes → ℕ → Bytes
  pub length-stream : (key iv : Bytes) (n : ℕ) → length (stream key iv n) ≡ n
  pub encrypt-stream :
      (key iv plain : Bytes)
      → length key ≡ 16
      → length iv ≡ 16
      → y.encrypt key iv plain ≡ ok (xor_bytes (stream key iv (length plain)) plain)
  pub crypter-stream :
      (key iv a b : Bytes)
      → length key ≡ 16
      → length iv ≡ 16
      → Ciphered y key iv a b (stream key iv (length a + length b))
