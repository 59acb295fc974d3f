-- ===== src/Api/Launch/SessionSign.antt =====
-- src/api/launch/mod.rs: signing a session with the tenant's key, and checking it against the
-- tenant's certificate.
use csv_rs.Base.{
  Option, some, resize, length-resize, ◌≤◌, ◌≡◌, refl, sym, subst, ◌∙◌, arith, Bytes, [], length,
  true, none, Outcome, ok, ◌>>=◌, >>=-eq-ok, ok_injective,
}
use csv_rs.Error.{IoError}
use csv_rs.OpenSsl.{BigNums, BigNumLaws, Sm2Lib, Sm2Laws, DerLaws}
use csv_rs.Util.{save, slice_to, slice_to_within}
use csv_rs.Crypto
use csv_rs.Crypto.{Signature, PrivateKey, id_agrees, algo_agrees}
use csv_rs.Crypto.Ecc.{sm2_256}
use csv_rs.Crypto.Verify
use csv_rs.Crypto.Signing.{sm2_verify-sign, raw_of, of_slice-raw_of, to_vec-raw_of}
use csv_rs.Certs.Csv.Sign.{
  certificate_of, Issued, take-resize, generate-generate_key, generate_key-Issued,
}
use csv_rs.Crypto.Ecdsa
use csv_rs.Crypto.Sm2
use csv_rs.Certs.Usage as Usages
use csv_rs.Certs.Csv.Data.{Certificate, PubKey}
use csv_rs.Certs.Csv.Cert.{public_key, generate, generate_key, chosen_uid}
use csv_rs.Api.Launch.Session.{Session, session_body, of_signature, to_signature}
use csv_rs.Api.Launch.SessionLaws.{raw_of-kept}

module _ (o : BigNums) (l : Sm2Lib) where
  -- `Signer<Session>::sign`: the session afterwards.
  unfoldable pub sign : PrivateKey l.EcKey → Session → Bytes → l.Env → Outcome IoError Session
  sign prv target uid env = do
    msg ← save session_body target.body []
    sig ← Sm2.sign l prv.key uid msg env
    ecdsa_sig ← Ecdsa.of_slice o sig
    slot ← of_signature ecdsa_sig
    ok (record target { sig = slot })

  -- `TryFrom<&Session> for Signature`
  unfoldable pub signature : Session → Outcome IoError Signature
  signature value = do
    raw ← to_signature value.sig
    sig ← Ecdsa.to_vec o raw
    ok (record { sig = sig; id = none; usage = Usages.pdh; algo = none })

  -- `Encoder<Body>::encode`: the body alone.
  unfoldable pub encode : Session → Bytes → Outcome IoError Bytes
  encode s writer = save session_body s.body writer

  -- `(&Certificate, &Session)::verify`
  unfoldable pub verify : Certificate → Session → Outcome IoError (Unit {0})
  unfolding signature encode
  verify cert s = do
    sig ← signature s
    uid ← slice_to cert.body.info.uid_size cert.body.info.user_id
    Crypto.verify l (public_key cert) (encode s []) uid sig

reads :
    (o : BigNums) (l : Sm2Lib) (s : Session) (g : o.EcdsaSig) (sig : Bytes)
    → to_signature s.sig ≡ ok (raw_of o g)
    → Ecdsa.to_vec o (raw_of o g) ≡ ok sig
    → signature o l s ≡ ok (record { sig = sig; id = none; usage = Usages.pdh; algo = none })
unfolding signature
reads o l s g sig out printed = rw (out, printed)

module _ (o : BigNums) (l : Sm2Lib) (big : BigNumLaws o) (sm : Sm2Laws l) (der : DerLaws l o) where
  -- Signing leaves the body alone, and the certificate accepts what came of it.
  pub record Signs (cert : Certificate) (prv : PrivateKey l.EcKey) (target : Session) (uid : Bytes)
      (env : l.Env) : Type 0 where
    pub after : Session
    pub signs : sign o l prv target uid env ≡ ok after
    pub same_body : after.body ≡ target.body
    pub accepted : verify o l cert after ≡ ok tt

  sign-Signs :
      (uid : Bytes) (env env' : l.Env) (key : PubKey) (prv : PrivateKey l.EcKey) (p : l.Pkey)
      (target : Session)
      → length uid ≤ 254
      → Issued l env Usages.pdh key prv
      → l.pkey_allocated env' ≡ true
      → l.pkey_assign prv.key ≡ some p
      → Signs (certificate_of uid key) prv target uid env'
  unfolding sign verify encode save public_key id_agrees algo_agrees
  sign-Signs uid env env' key prv p target short issued allocated assigned =
      let msg = session_body.to_bytes target.body in
      let sig = l.digest_sign p uid msg env' in
      let (written, good) =
        sm2_verify-sign l sm sm2_256 env env' key.key prv.key p uid msg issued.pair allocated
          assigned in
      let (g, parsed, printed, r_fits, s_fits) = der.digest_sign-der p uid msg env' in
      let put = >>=-eq-ok (of_signature (raw_of o g)) _ (raw_of-kept o g r_fits s_fits) in
      let after : Session = record target { sig = put.0 } in
      let cert = certificate_of uid key in
      let read : signature o l after
          ≡ ok (record { sig = sig; id = none; usage = Usages.pdh; algo = none }) =
        reads o l after g sig put.2
          (to_vec-raw_of o g sig (omega arith) (omega arith) big printed) in
      record {
        after = after;
        signs = rw (written, of_slice-raw_of o g sig (omega arith) (omega arith) parsed, put.1);
        same_body = refl;
        accepted =
            rw
              (
                read,
                slice_to_within (length uid) (resize uid 254 0)
                    (omega (arith, length-resize uid 254 0)),
                take-resize uid short,
              )
              ((Verify.verify-eq-ok_iff l (public_key cert) msg uid _).1 (record {
                same_usage = sym issued.public_usage;
                same_algo = refl;
                same_id = refl;
                sm2 = good;
              }));
      }

  -- A session signed with the private key of a generated PDH certificate whose user id fits its field,
  -- with memory for the key and under the same user id: signing succeeds, keeps the body, and the
  -- certificate then accepts the session.
  pub verify-sign_session :
      (given : Option Bytes) (uid : Bytes) (env env' : l.Env) (cert : Certificate)
      (prv : PrivateKey l.EcKey) (p : l.Pkey) (target : Session)
      → chosen_uid Usages.pdh given ≡ ok uid
      → length uid ≤ 254
      → generate l Usages.pdh given env ≡ ok (cert, prv)
      → l.pkey_allocated env' ≡ true
      → l.pkey_assign prv.key ≡ some p
      → Signs cert prv target uid env'
  verify-sign_session given uid env env' cert prv p target chosen short made allocated assigned =
      let keys =
        >>=-eq-ok (generate_key l Usages.pdh none env) _
          (sym (generate-generate_key l Usages.pdh given env uid chosen (omega arith)) ∙ made) in
      let same : Path (Certificate × PrivateKey l.EcKey) (certificate_of uid keys.0.0, keys.0.1)
          (cert, prv) =
        ok_injective keys.2 in
      subst
        (λ (q : Certificate × PrivateKey l.EcKey).
          l.pkey_assign q.1.key ≡ some p → Signs q.0 q.1 target uid env')
        same
        (λ assigned.
          sign-Signs uid env env' keys.0.0 keys.0.1 p target short
            (generate_key-Issued l Usages.pdh none env keys.1) allocated assigned)
        assigned
