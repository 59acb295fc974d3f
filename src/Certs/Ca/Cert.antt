-- ===== src/Certs/Ca/Cert.antt =====
-- src/certs/ca/cert/mod.rs: the certificates of HYGON's certificate authority.
use csv_rs.Base.{[], Bytes, some, none, Outcome, ok, ◌>>=◌}
use csv_rs.Error.{IoError}
use csv_rs.OpenSsl.{BigNums, Sm2Lib}
use csv_rs.Util.{load, save, slice_to}
use csv_rs.Util.Memory.{array}
use csv_rs.Certs.Usage.{Usage, hrk, sm2_sa}
use csv_rs.Crypto
use csv_rs.Crypto.{Signature, PublicKey}
use csv_rs.Crypto.Ecdsa
use csv_rs.Certs.Ca.Data.{Certificate, body}

-- `TryFrom<&Certificate> for PublicKey`
unfoldable pub public_key : Certificate → PublicKey
public_key value = record {
  id = some value.body.preamble.info.kid;
  key = value.body.pubkey;
  usage = value.body.preamble.info.usage;
  algo = some sm2_sa;
}

-- `TryFrom<&Certificate> for Usage`
unfoldable pub usage : Certificate → Usage
usage value = value.body.preamble.info.usage

-- `Decoder::decode`: the certificate and what is left of the reader.
unfoldable pub decode : Bytes → Outcome IoError (Certificate × Bytes)
decode reader = do
  (b, reader₁) ← load body reader
  (signature, reader₂) ← load Ecdsa.signature reader₁
  (reserved, reader₃) ← load (array 112) reader₂
  ok (record { body = b; signature = signature; reserved = reserved }, reader₃)

-- `Encoder<Body>::encode`, behind what the writer holds: the body alone.
unfoldable pub encode : Certificate → Bytes → Outcome IoError Bytes
encode c writer = save body c.body writer

module _ (o : BigNums) (l : Sm2Lib) where
  -- `TryFrom<&Certificate> for Signature`
  unfoldable pub signature : Certificate → Outcome IoError Signature
  signature value = do
    sig ← Ecdsa.to_vec o value.signature
    ok (record { sig = sig; id = some value.body.preamble.info.sid; usage = hrk; algo = none })

  -- `(&Certificate, &Certificate)::verify`: the first signed the second.
  unfoldable pub verify : Certificate → Certificate → Outcome IoError (Unit {0})
  unfolding signature public_key
  verify signer signee = do
    sig ← signature signee
    uid ← slice_to signer.body.uid_size signer.body.user_id
    Crypto.verify l (public_key signer) (encode signee []) uid sig
