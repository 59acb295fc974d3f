-- ===== src/Session/Key.antt =====
-- src/session/key.rs: symmetric keys.
use csv_rs.Base.{
  ℕ, ◌+◌, ◌-◌, ◌*◌, ◌/◌, Bytes, [], ◌∷◌, ◌++◌, length, take, replicate, Outcome, ok, ◌>>=◌,
}
use csv_rs.Error.{IoError}
use csv_rs.Crypto.Kdf.{Sm3Lib, ecdh_kdf_x9_63}

-- `struct Key(Vec<u8>)`
abbrev pub Key : Type 0
Key = Bytes

-- `Key::zeroed`
unfoldable pub zeroed : ℕ → Key
zeroed size = replicate size 0

-- `Key::random`: zeros, overwritten by as many random bytes.
unfoldable pub random : (ℕ → Outcome IoError Bytes) → ℕ → Outcome IoError Key
unfolding zeroed
random rand_bytes size = do key ← rand_bytes (length (zeroed size)); ok key

-- `Encoder::encode`
unfoldable pub encode : Key → Bytes → Outcome IoError Bytes
encode key writer = ok (writer ++ key)

-- The bytes that every round of the derivation starts from.
unfoldable pub prefix : Key → Bytes → Bytes → Bytes
prefix key ctx label = ((key ++ label) ++ (0 ∷ [])) ++ ctx

-- The whole digests that `size` bytes need.
unfoldable pub room : ℕ → ℕ
room size = (size + 32 - 1) / 32 * 32

-- `Key::derive`
unfoldable pub derive : Sm3Lib → Key → ℕ → Bytes → Bytes → Outcome IoError Key
derive m key size ctx label = do
  let prepend = prefix key ctx label
  first ← ecdh_kdf_x9_63 m (room size) prepend
  second ← ecdh_kdf_x9_63 m (room size) (prepend ++ first)
  ok (take size second)
