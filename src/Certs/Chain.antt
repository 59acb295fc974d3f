-- ===== src/Certs/Chain.antt =====
-- src/certs/chain.rs: the whole chain, from the root to the platform's Diffie-Hellman key.
use csv_rs.Base.{Bytes, Outcome, ok, ◌>>=◌, ◌>>◌}
use csv_rs.Error.{IoError}
use csv_rs.OpenSsl.{BigNums, Sm2Lib}
use csv_rs.Certs.Ca.Chain as CaChain
use csv_rs.Certs.Csv.Cert
use csv_rs.Certs.Csv.Data.{Certificate}
use csv_rs.Certs.Csv.Chain as CsvChain

pub record Chain : Type 0 where
  pub ca : CaChain.Chain
  pub csv : CsvChain.Chain

-- `Decoder::decode`
unfoldable pub decode : Bytes → Outcome IoError (Chain × Bytes)
unfolding CaChain.decode CsvChain.decode
decode reader = do
  (csv, reader₁) ← CsvChain.decode reader
  (ca, reader₂) ← CaChain.decode reader₁
  ok (record { ca = ca; csv = csv }, reader₂)

-- `Encoder::encode`
unfoldable pub encode : Chain → Bytes → Outcome IoError Bytes
unfolding CaChain.encode CsvChain.encode
encode c writer = do writer₁ ← CsvChain.encode c.csv writer; CaChain.encode c.ca writer₁

module _ (o : BigNums) (l : Sm2Lib) where
  -- `Verifiable::verify`
  unfoldable pub verify : Chain → Outcome IoError Certificate
  verify c = do
    ask ← CaChain.verify o l c.ca
    Cert.verify_by_ca o l ask c.csv.cek
    CsvChain.verify o l c.csv
