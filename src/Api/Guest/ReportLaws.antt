-- ===== src/Api/Guest/ReportLaws.antt =====
-- src/api/guest/types.rs: when a platform's certificate has signed a report.
use csv_rs.Base.{true, refl, >>=-eq-ok, ◌≤◌, ◌≡◌, ◌↔◌, sym, arith, Bytes, take, ok}
use csv_rs.OpenSsl.{BigNums, Sm2Lib}
use csv_rs.Util.{slice_to, slice_to_within, slice_to-eq-ok, save}
use csv_rs.Crypto.{id_agrees, algo_agrees}
use csv_rs.Crypto.Ecdsa
use csv_rs.Crypto.Sm2
use csv_rs.Crypto.Verify.{verify-eq-ok_iff}
use csv_rs.Certs.Usage as Usages
use csv_rs.Certs.Csv.Data.{Certificate, IsCertificate, user_id_fits}
use csv_rs.Certs.Csv.Cert.{public_key, usage}
use csv_rs.Api.Guest.Report.{AttestationReport, body, verify, signature, encode}

-- The certificate is that of a platform endorsement key, its user id claims no more bytes than its
-- array has, the report's signature can be read, and SM2 accepts it for the report's body.
pub record Reported (o : BigNums) (l : Sm2Lib) (cert : Certificate) (r : AttestationReport)
    : Type 0 where
  pub endorser : usage cert ≡ Usages.pek
  pub room : cert.body.info.uid_size ≤ 254
  pub der : Bytes
  pub read : Ecdsa.to_vec o r.sig ≡ ok der
  pub sm2 :
      Sm2.verify l cert.body.info.pubkey.key der
        (take cert.body.info.uid_size cert.body.info.user_id)
        (body.to_bytes r.body)
      ≡ ok true

-- Checking a report against a certificate of the Rust type succeeds exactly if the certificate is that
-- of a platform endorsement key, its user id claims no more bytes than its array has, the signature in
-- the report can be read, and SM2 accepts it for the report's body under the key and that user id.
pub verify-iff-Reported :
    (o : BigNums) (l : Sm2Lib) (cert : Certificate) (r : AttestationReport)
    → IsCertificate cert
    → (verify o l cert r ≡ ok tt) ↔ Reported o l cert r
unfolding verify signature encode save public_key usage id_agrees algo_agrees
verify-iff-Reported o l cert r fits = (
  λ h.
      let (sig, signed, h₁) = >>=-eq-ok (signature o l r) _ h in
      let (der, read, made) = >>=-eq-ok (Ecdsa.to_vec o r.sig) _ signed in
      let (uid, sliced, h₂) =
        >>=-eq-ok (slice_to cert.body.info.uid_size cert.body.info.user_id) _ h₁ in
      let room : cert.body.info.uid_size ≤ 254 =
        omega (arith, slice_to-eq-ok _ _ sliced, (user_id_fits fits).size) in
      let inside =
        slice_to_within cert.body.info.uid_size cert.body.info.user_id
          (omega (arith, room, (user_id_fits fits).size)) in
      let a = (verify-eq-ok_iff l _ _ _ _).0 (rw (read, inside) at h) in
      record { endorser = sym a.same_usage; room = room; der = der; read = read; sm2 = a.sm2 },
  λ e.
      rw
        (
          e.read,
          slice_to_within cert.body.info.uid_size cert.body.info.user_id
              (omega (arith, e.room, (user_id_fits fits).size)),
        )
        ((verify-eq-ok_iff l _ _ _ _).1
          (record { same_usage = sym e.endorser; same_algo = refl; same_id = refl; sm2 = e.sm2 })),
)
