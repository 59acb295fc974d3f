-- ===== src/Certs/Ca/Verify.antt =====
-- src/certs/ca/cert/mod.rs: when one authority certificate's key has signed another certificate.
use csv_rs.Base.{true, refl, >>=-eq-ok, ◌≤◌, ◌≡◌, ◌↔◌, sym, arith, Bytes, take, ok, bytes_eq_iff}
use csv_rs.OpenSsl.{BigNums, Sm2Lib}
use csv_rs.Util.{slice_to, slice_to_within, slice_to-eq-ok, save}
use csv_rs.Crypto.{id_agrees, algo_agrees}
use csv_rs.Crypto.Ecdsa
use csv_rs.Crypto.Sm2
use csv_rs.Crypto.Verify.{verify-eq-ok_iff}
use csv_rs.Certs.Usage as Usages
use csv_rs.Certs.Ca.Data.{Certificate, body, IsCertificate, user_id_fits}
use csv_rs.Certs.Ca.Cert.{verify, signature, encode, usage}

-- The first certificate is a root's, the second names its key, and SM2 accepts the signature `der`
-- of the body of the second under the user id of the first.
pub record Roots (l : Sm2Lib) (signer signee : Certificate) (der : Bytes) : Type 0 where
  pub root : usage signer ≡ Usages.hrk
  pub named : signer.body.preamble.info.kid ≡ signee.body.preamble.info.sid
  pub sm2 :
      Sm2.verify l signer.body.pubkey der
        (take signer.body.uid_size signer.body.user_id)
        (body.to_bytes signee.body)
      ≡ ok true

-- Where the user id of the first certificate claims no more bytes than its array has and the
-- signature of the second can be read, the check succeeds exactly if the first is a root that signed
-- the second and that the second names.
pub verify-iff-Roots :
    (o : BigNums) (l : Sm2Lib) (signer signee : Certificate) (der : Bytes)
    → IsCertificate signer
    → signer.body.uid_size ≤ 254
    → Ecdsa.to_vec o signee.signature ≡ ok der
    → (verify o l signer signee ≡ ok tt) ↔ Roots l signer signee der
unfolding verify encode save id_agrees algo_agrees usage
verify-iff-Roots o l signer signee der fits room read =
    rw
      (
        read,
        slice_to_within signer.body.uid_size signer.body.user_id
            (omega (arith, (user_id_fits fits).size)),
      )
      (
        λ h.
            let a = (verify-eq-ok_iff l _ _ _ _).0 h in
            record {
              root = sym a.same_usage;
              named = sym ((bytes_eq_iff _ _).0 a.same_id);
              sm2 = a.sm2;
            },
        λ r. (verify-eq-ok_iff l _ _ _ _).1 (record {
          same_usage = sym r.root;
          same_algo = refl;
          same_id = (bytes_eq_iff _ _).1 (sym r.named);
          sm2 = r.sm2;
        }),
      )

-- The first certificate signed the second: the claim of its user id is in range, the signature of
-- the second can be read, and the first is its root.
pub record RootSigned (o : BigNums) (l : Sm2Lib) (signer signee : Certificate) : Type 0 where
  pub room : signer.body.uid_size ≤ 254
  pub der : Bytes
  pub read : Ecdsa.to_vec o signee.signature ≡ ok der
  pub roots : Roots l signer signee der

pub verify-iff-RootSigned :
    (o : BigNums) (l : Sm2Lib) (signer signee : Certificate)
    → IsCertificate signer
    → (verify o l signer signee ≡ ok tt) ↔ RootSigned o l signer signee
unfolding verify signature
verify-iff-RootSigned o l signer signee fits = (
  λ h.
      let sig = >>=-eq-ok (signature o l signee) _ h in
      let der = >>=-eq-ok (Ecdsa.to_vec o signee.signature) _ sig.1 in
      let uid = >>=-eq-ok (slice_to signer.body.uid_size signer.body.user_id) _ sig.2 in
      let room : signer.body.uid_size ≤ 254 =
        omega (arith, slice_to-eq-ok _ _ uid.1, (user_id_fits fits).size) in
      record {
        room = room;
        der = der.0;
        read = der.1;
        roots = (verify-iff-Roots o l signer signee der.0 fits room der.1).0 h;
      },
  λ e. (verify-iff-Roots o l signer signee e.der fits e.room e.read).1 e.roots,
)
