-- ===== src/Session/Derive.antt =====
-- src/session/key.rs: what a derived key is.
use csv_rs.Base.{
  ℕ, ◌+◌, ◌/◌, ◌≤◌, ◌≡◌, arith, Bytes, ◌++◌, length, length-append, length-take, take, ok,
}
use csv_rs.Crypto.Kdf.{Sm3Lib, Sm3Laws, ecdh_kdf_max, blocks, ecdh_kdf_x9_63-eq-blocks}
use csv_rs.Session.Key.{Key, prefix, room, derive}

module _ (m : Sm3Lib) (laws : Sm3Laws m) where
  -- As many bytes as whole digests have.
  abbrev pub round : ℕ → Bytes → Bytes
  round n input = take n (blocks m laws (n / 32 + 1) input 1)

  room-le : (size : ℕ) → size ≤ room size
  unfolding room
  room-le size = omega arith

  -- Where key, label, context and the whole digests together stay within 2^30 bytes, deriving succeeds
  -- with a key of exactly the size asked for: the first bytes of a second round over the input and all
  -- that a first round over the input gave.
  pub derive-eq-rounds :
      (key : Key) (size : ℕ) (ctx label : Bytes)
      → length (prefix key ctx label) + room size ≤ ecdh_kdf_max
      → (derive m key size ctx label
          ≡ ok (
              take size (
                round
                  (room size)
                  (prefix key ctx label ++ round (room size) (prefix key ctx label)))))
        × (length (
              take size (
                round
                  (room size)
                  (prefix key ctx label ++ round (room size) (prefix key ctx label))))
            ≡ size)
  unfolding derive
  derive-eq-rounds key size ctx label fits =
      let input = prefix key ctx label in
      let n = room size in
      let first =
        (ecdh_kdf_x9_63-eq-blocks m laws n input).0 (omega (arith, fits)) (omega (arith, fits)) in
      let longer : length (input ++ round n input) ≤ ecdh_kdf_max =
        omega (arith, length-append input (round n input), first.1, fits) in
      let second =
        (ecdh_kdf_x9_63-eq-blocks m laws n (input ++ round n input)).0 (omega (arith, fits))
          longer in
      (
        rw (first.0, second.0),
        omega (arith, length-take size (round n (input ++ round n input)), second.1, room-le size),
      )
