-- ===== src/Certs/Csv/Encrypt.antt =====
-- src/crypto/mod.rs and src/certs/csv/cert/mod.rs: encryption to the key of a certificate.
use csv_rs.Base.{Bytes, Outcome}
use csv_rs.Error.{IoError}
use csv_rs.OpenSsl.{Sm2Lib}
use csv_rs.Crypto.{PublicKey}
use csv_rs.Crypto.Kdf.{Sm3Lib}
use csv_rs.Crypto.Points.{CurveLib}
use csv_rs.Crypto.Encrypt as Sm2
use csv_rs.Certs.Csv.Data.{Certificate}
use csv_rs.Certs.Csv.Cert.{public_key}

module _ (l : Sm2Lib) (c : CurveLib l) (m : Sm3Lib) where
  -- `PublicKey::encrypt`
  unfoldable pub key_encrypt : PublicKey → Bytes → l.Env → Outcome IoError Bytes
  key_encrypt key plain env = Sm2.encrypt l c m plain key.key env

  -- `Certificate::encrypt`
  unfoldable pub encrypt : Certificate → Bytes → l.Env → Outcome IoError Bytes
  unfolding key_encrypt
  encrypt cert plain env = key_encrypt (public_key cert) plain env
