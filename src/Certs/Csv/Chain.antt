-- ===== src/Certs/Csv/Chain.antt =====
-- src/certs/csv/chain.rs: the platform's chain.
use csv_rs.Base.{Bytes, not, ◌==◌, Outcome, ok, ◌>>=◌, ◌>>◌, fail_if}
use csv_rs.Error.{IoError, of_kind, invalid_input}
use csv_rs.OpenSsl.{BigNums, Sm2Lib}
use csv_rs.Certs.Usage as Usages
use csv_rs.Certs.Csv.Cert
use csv_rs.Certs.Csv.Data.{Certificate}

pub record Chain : Type 0 where
  pub pdh : Certificate
  pub pek : Certificate
  pub oca : Certificate
  pub cek : Certificate

-- `Decoder::decode`
unfoldable pub decode : Bytes → Outcome IoError (Chain × Bytes)
decode reader = do
  (pdh, reader₁) ← Cert.decode reader
  fail_if (not (Cert.usage pdh == Usages.pdh)) (of_kind invalid_input)
  (pek, reader₂) ← Cert.decode reader₁
  fail_if (not (Cert.usage pek == Usages.pek)) (of_kind invalid_input)
  (oca, reader₃) ← Cert.decode reader₂
  fail_if (not (Cert.usage oca == Usages.oca)) (of_kind invalid_input)
  (cek, reader₄) ← Cert.decode reader₃
  fail_if (not (Cert.usage cek == Usages.cek)) (of_kind invalid_input)
  ok (record { pdh = pdh; pek = pek; oca = oca; cek = cek }, reader₄)

-- `Encoder::encode`
unfoldable pub encode : Chain → Bytes → Outcome IoError Bytes
encode c writer = do
  writer₁ ← Cert.encode c.pdh writer
  writer₂ ← Cert.encode c.pek writer₁
  writer₃ ← Cert.encode c.oca writer₂
  Cert.encode c.cek writer₃

module _ (o : BigNums) (l : Sm2Lib) where
  -- `Verifiable::verify`
  unfoldable pub verify : Chain → Outcome IoError Certificate
  verify c = do
    Cert.verify o l c.oca c.oca
    Cert.verify o l c.oca c.pek
    Cert.verify o l c.cek c.pek
    Cert.verify o l c.pek c.pdh
    ok c.pdh
