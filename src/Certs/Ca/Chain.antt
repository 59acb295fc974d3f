-- ===== src/Certs/Ca/Chain.antt =====
-- src/certs/ca/chain.rs: the signing key's certificate and the root's.
use csv_rs.Base.{Bytes, not, ◌==◌, Outcome, ok, ◌>>=◌, ◌>>◌, fail_if}
use csv_rs.Error.{IoError, of_kind, invalid_input}
use csv_rs.OpenSsl.{BigNums, Sm2Lib}
use csv_rs.Certs.Usage as Usages
use csv_rs.Certs.Ca.Cert
use csv_rs.Certs.Ca.Data.{Certificate}

pub record Chain : Type 0 where
  pub hsk : Certificate
  pub hrk : Certificate

-- `Decoder::decode`
unfoldable pub decode : Bytes → Outcome IoError (Chain × Bytes)
decode reader = do
  (hsk, reader₁) ← Cert.decode reader
  fail_if (not (Cert.usage hsk == Usages.hsk)) (of_kind invalid_input)
  (hrk, reader₂) ← Cert.decode reader₁
  fail_if (not (Cert.usage hrk == Usages.hrk)) (of_kind invalid_input)
  ok (record { hsk = hsk; hrk = hrk }, reader₂)

-- `Encoder::encode`
unfoldable pub encode : Chain → Bytes → Outcome IoError Bytes
encode c writer = do writer₁ ← Cert.encode c.hsk writer; Cert.encode c.hrk writer₁

module _ (o : BigNums) (l : Sm2Lib) where
  -- `Verifiable::verify`: the root signed itself and the signing key.
  unfoldable pub verify : Chain → Outcome IoError Certificate
  verify c = do Cert.verify o l c.hrk c.hrk; Cert.verify o l c.hrk c.hsk; ok c.hsk
