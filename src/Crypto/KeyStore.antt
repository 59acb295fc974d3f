-- ===== src/Crypto/KeyStore.antt =====
-- src/crypto/sm.rs: signing with a private key that is a pointer to a key of OpenSSL's, and who frees it.
use csv_rs.Base.{
  ℕ, ◌≡◌, ◌≢◌, refl, ◌==◌, ==_refl, true, false, Bool-cases, inl, inr, if◌then◌else◌, Bytes,
  replicate, take, length, Option, none, some, Outcome, ok, err, ◌>>=◌, ==_iff,
}
use csv_rs.Error.{IoError, of_kind, message, invalid_data}
use csv_rs.OpenSsl.{Sm2Lib}
use csv_rs.Util.BigNum.{write_from}
use csv_rs.Crypto.Sm2

-- A result, or what the language leaves undefined: a key is used after it was freed.
pub data Effect (A : Type 0) : Type 0 where
  finished : Outcome IoError A → Effect A
  use_after_free : Effect A

differs : (a b : ℕ) → a ≢ b → (a == b) ≡ false
differs a b apart = elim (Bool-cases (a == b)) [
  | inl same ↦ absurd (apart ((==_iff a b).0 same))
  | inr other ↦ other
]

module _ (l : Sm2Lib) where
  -- The keys that are alive, by their addresses.
  abbrev pub KeyStore : Type 0
  KeyStore = ℕ → Option l.EcKey

  -- `EC_KEY_free`
  unfoldable pub free : ℕ → KeyStore → KeyStore
  free pri_key keys a = if a == pri_key then none else keys a

  -- What stands behind `EVP_PKEY_assign`, with what that gave: the key now belongs to the `EVP_PKEY`, and
  -- `EVP_PKEY_free` frees both.
  unfoldable sign_with :
      KeyStore → ℕ → Bytes → Bytes → l.Env → Option l.Pkey → KeyStore × Effect Bytes
  unfolding free
  sign_with keys pri_key id data' env none =
      (keys, finished (err (message invalid_data "EVP_PKEY_assign failed")))
  sign_with keys pri_key id data' env (some pkey) =
      let written = l.digest_sign pkey id data' env in
      let buffer = write_from (replicate (l.digest_sign_room pkey data') 0) written in
      (free pri_key keys, finished (do sig ← buffer; ok (take (length written) sig)))

  -- `SM2::sign` on a pointer, behind the allocation of an `EVP_PKEY`.
  unfoldable sign_key :
      KeyStore → ℕ → Bytes → Bytes → l.Env → Option l.EcKey → KeyStore × Effect Bytes
  unfolding sign_with
  sign_key keys pri_key id data' env none = (keys, use_after_free)
  sign_key keys pri_key id data' env (some key) =
      sign_with keys pri_key id data' env (l.pkey_assign key)

  -- `SM2::sign` on a pointer
  unfoldable pub sign_at : KeyStore → ℕ → Bytes → Bytes → l.Env → KeyStore × Effect Bytes
  unfolding sign_key
  sign_at keys pri_key id data' env =
      if l.pkey_allocated env
      then sign_key keys pri_key id data' env (keys pri_key)
      else (keys, finished (err (of_kind invalid_data)))

  -- A key that is alive and that there is memory to use: signing with it gives what `SM2::sign` gives of
  -- the key, leaves every other key, and frees this one; so whatever is then signed with it, with memory
  -- for it, is a use after the key was freed.
  pub sign_at-once :
      (keys : KeyStore) (pri_key other : ℕ) (key : l.EcKey) (p : l.Pkey) (id msg id' msg' : Bytes)
      (env env' : l.Env)
      → keys pri_key ≡ some key
      → l.pkey_assign key ≡ some p
      → l.pkey_allocated env ≡ true
      → l.pkey_allocated env' ≡ true
      → other ≢ pri_key
      → let after = (sign_at keys pri_key id msg env).0 in
        ((sign_at keys pri_key id msg env).1 ≡ finished (Sm2.sign l key id msg env))
        × (after other ≡ keys other)
        × ((sign_at after pri_key id' msg' env').1 ≡ use_after_free)
  unfolding sign_at free Sm2.sign
  sign_at-once keys pri_key other key p id msg id' msg' env env' alive assigned memory memory'
        apart =
      let same : (pri_key == pri_key) ≡ true = ==_refl pri_key in
      let not_same : (other == pri_key) ≡ false = differs other pri_key apart in
      (
        rw (memory, alive, assigned),
        rw (memory, alive, assigned, not_same),
        rw (memory, alive, assigned, memory', same) refl,
      )
