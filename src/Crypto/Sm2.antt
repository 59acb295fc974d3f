-- ===== src/Crypto/Sm2.antt =====
-- src/crypto/sm.rs: SM2 keys and signatures.
use mathlib.Core.List.{reverse}
use csv_rs.Base.{
  Bytes, Bool, not, Outcome, ok, ◌>>=◌, ◌>>◌, fail_if, ok_or, replicate, resize, take, length,
}
use csv_rs.Error.{IoError, of_kind, message, invalid_data}
use csv_rs.Util.{slice_to}
use csv_rs.Util.BigNum.{write_from}
use csv_rs.OpenSsl.{Sm2Lib}
use csv_rs.Crypto.Ecc.{Group, PubKey, group_size, group_nid}

module _ (l : Sm2Lib) where
  -- The key that a pair of big-endian coordinates stands for.
  unfoldable pub ec_key : Bytes → Bytes → l.EcKey
  ec_key pub_x pub_y = l.set_affine_coordinates l.ec_key_sm2 (l.bin2bn pub_x) (l.bin2bn pub_y)

  -- `SM2::verify`
  unfoldable pub verify : PubKey → Bytes → Bytes → Bytes → Outcome IoError Bool
  unfolding ec_key
  verify key sig id msg = do
    pubkey_size ← group_size key.g
    x ← slice_to pubkey_size key.x
    y ← slice_to pubkey_size key.y
    pkey ←
        ok_or (l.pkey_assign (ec_key (reverse x) (reverse y)))
          (message invalid_data "EVP_KEY_set1_EC_KEY failed")
    ok (l.digest_verify pkey id msg sig)

  -- `SM2::generate`: the coordinates, turned round and filled up to the array.
  unfoldable pub generate : Group → l.Env → Outcome IoError (PubKey × l.EcKey)
  generate group env = do
    value ← group_nid group
    fail_if (not (l.key_allocated env)) (of_kind invalid_data)
    eckey ← ok_or (l.set_group value) (of_kind invalid_data)
    eckey ← ok_or (l.generate_key eckey env) (of_kind invalid_data)
    (x, y) ← ok_or (l.get_affine_coordinates eckey) (of_kind invalid_data)
    qx ← ok_or (l.bn2binpad x 32) (of_kind invalid_data)
    qy ← ok_or (l.bn2binpad y 32) (of_kind invalid_data)
    ok (record { g = group; x = resize (reverse qx) 72 0; y = resize (reverse qy) 72 0 }, eckey)

  -- `SM2::sign`: a buffer of the room asked for is written and cut to the length written.
  unfoldable pub sign : l.EcKey → Bytes → Bytes → l.Env → Outcome IoError Bytes
  sign pri_key id msg env = do
    fail_if (not (l.pkey_allocated env)) (of_kind invalid_data)
    pkey ← ok_or (l.pkey_assign pri_key) (message invalid_data "EVP_PKEY_assign failed")
    let written = l.digest_sign pkey id msg env
    sig ← write_from (replicate (l.digest_sign_room pkey msg) 0) written
    ok (take (length written) sig)
