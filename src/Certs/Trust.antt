-- ===== src/Certs/Trust.antt =====
-- src/certs/chain.rs, ca/chain.rs and csv/chain.rs: which signatures a whole chain that is accepted
-- rests on.
use csv_rs.Base.{subst, sym, ◌≡◌, ◌↔◌, ok, >>=-eq-ok, ok_injective}
use csv_rs.OpenSsl.{BigNums, Sm2Lib}
use csv_rs.Certs.Ca.Cert as CaCert
use csv_rs.Certs.Csv.Cert as CsvCert
use csv_rs.Certs.Ca.Data as CaData
use csv_rs.Certs.Csv.Data.{Certificate, IsCertificate}
use csv_rs.Certs.Ca.Chain as CaChain
use csv_rs.Certs.Csv.Chain as CsvChain
use csv_rs.Certs.Ca.Verify.{RootSigned, verify-iff-RootSigned}
use csv_rs.Certs.Csv.Verify.{
  Endorsed, EndorsedByCa, verify-iff-Endorsed, verify_by_ca-iff-EndorsedByCa,
}
use csv_rs.Certs.Chain.{Chain, verify}

-- A chain of the Rust type: six certificates of the Rust type, whatever their usages.
pub record AreCertificates (c : Chain) : Type 0 where
  pub pdh : IsCertificate c.csv.pdh
  pub pek : IsCertificate c.csv.pek
  pub oca : IsCertificate c.csv.oca
  pub cek : IsCertificate c.csv.cek
  pub hsk : CaData.IsCertificate c.ca.hsk
  pub hrk : CaData.IsCertificate c.ca.hrk

-- The seven signatures: the root's of itself and of the signing key, the signing key's of the chip
-- endorsement key, the owner's of itself and of the platform endorsement key, the chip endorsement
-- key's of the latter, and the platform endorsement key's of the Diffie-Hellman key.
pub record Trusted (o : BigNums) (l : Sm2Lib) (c : Chain) : Type 0 where
  pub root : RootSigned o l c.ca.hrk c.ca.hrk
  pub signing : RootSigned o l c.ca.hrk c.ca.hsk
  pub chip : EndorsedByCa o l c.ca.hsk c.csv.cek
  pub owner : Endorsed o l c.csv.oca c.csv.oca
  pub owned : Endorsed o l c.csv.oca c.csv.pek
  pub platform : Endorsed o l c.csv.cek c.csv.pek
  pub exchange : Endorsed o l c.csv.pek c.csv.pdh

module _ (o : BigNums) (l : Sm2Lib) (c : Chain) (fits : AreCertificates c) where
  Trusted-verify : Trusted o l c → verify o l c ≡ ok c.csv.pdh
  unfolding verify CaChain.verify CsvChain.verify
  Trusted-verify t = rw (
    (verify-iff-RootSigned o l c.ca.hrk c.ca.hrk fits.hrk).1 t.root,
    (verify-iff-RootSigned o l c.ca.hrk c.ca.hsk fits.hrk).1 t.signing,
    (verify_by_ca-iff-EndorsedByCa o l c.ca.hsk c.csv.cek fits.hsk).1 t.chip,
    (verify-iff-Endorsed o l c.csv.oca c.csv.oca fits.oca).1 t.owner,
    (verify-iff-Endorsed o l c.csv.oca c.csv.pek fits.oca).1 t.owned,
    (verify-iff-Endorsed o l c.csv.cek c.csv.pek fits.cek).1 t.platform,
    (verify-iff-Endorsed o l c.csv.pek c.csv.pdh fits.pek).1 t.exchange,
  )

  verify-Trusted : (p : Certificate) → verify o l c ≡ ok p → (p ≡ c.csv.pdh) × Trusted o l c
  unfolding verify CaChain.verify CsvChain.verify
  verify-Trusted p h =
      let ca = >>=-eq-ok (CaChain.verify o l c.ca) _ h in
      let root = >>=-eq-ok (CaCert.verify o l c.ca.hrk c.ca.hrk) _ ca.1 in
      let signing = >>=-eq-ok (CaCert.verify o l c.ca.hrk c.ca.hsk) _ root.2 in
      let ask : c.ca.hsk ≡ ca.0 = ok_injective signing.2 in
      let chip = >>=-eq-ok (CsvCert.verify_by_ca o l ca.0 c.csv.cek) _ ca.2 in
      let owner = >>=-eq-ok (CsvCert.verify o l c.csv.oca c.csv.oca) _ chip.2 in
      let owned = >>=-eq-ok (CsvCert.verify o l c.csv.oca c.csv.pek) _ owner.2 in
      let platform = >>=-eq-ok (CsvCert.verify o l c.csv.cek c.csv.pek) _ owned.2 in
      let exchange = >>=-eq-ok (CsvCert.verify o l c.csv.pek c.csv.pdh) _ platform.2 in
      let out : c.csv.pdh ≡ p = ok_injective exchange.2 in
      (
        sym out,
        record {
          root = (verify-iff-RootSigned o l c.ca.hrk c.ca.hrk fits.hrk).0 root.1;
          signing = (verify-iff-RootSigned o l c.ca.hrk c.ca.hsk fits.hrk).0 signing.1;
          chip =
              (verify_by_ca-iff-EndorsedByCa o l c.ca.hsk c.csv.cek fits.hsk).0
                (subst (λ k. CsvCert.verify_by_ca o l k c.csv.cek ≡ ok tt) (sym ask) chip.1);
          owner = (verify-iff-Endorsed o l c.csv.oca c.csv.oca fits.oca).0 owner.1;
          owned = (verify-iff-Endorsed o l c.csv.oca c.csv.pek fits.oca).0 owned.1;
          platform = (verify-iff-Endorsed o l c.csv.cek c.csv.pek fits.cek).0 platform.1;
          exchange = (verify-iff-Endorsed o l c.csv.pek c.csv.pdh fits.pek).0 exchange.1;
        },
      )

  -- Checking a chain of six certificates of the Rust type, whatever their usages, gives its PDH
  -- certificate exactly if all seven signatures are good, and never another certificate.
  pub verify-iff-Trusted :
      (p : Certificate) → (verify o l c ≡ ok p) ↔ ((p ≡ c.csv.pdh) × Trusted o l c)
  verify-iff-Trusted p = (verify-Trusted p, λ (same, t). rw same (Trusted-verify t))
