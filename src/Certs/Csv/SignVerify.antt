-- ===== src/Certs/Csv/SignVerify.antt =====
-- src/certs/csv/cert/mod.rs: what a generated certificate's key signs, the certificate accepts.
use csv_rs.Base.{
  ◌≤◌, ◌≡◌, ◌∙◌, ◌⊎◌, inl, inr, refl, sym, subst, arith, Bytes, length, true, Option, some, none,
  ok, >>=-eq-ok, ok_injective, Bool-cases,
}
use csv_rs.OpenSsl.{BigNums, BigNumLaws, Sm2Lib, Sm2Laws, DerLaws}
use csv_rs.Crypto.{Signature, PrivateKey}
use csv_rs.Certs.Usage.{Usage}
use csv_rs.Certs.Csv.Data.{PubKey, Certificate, IsCertificate}
use csv_rs.Certs.Csv.Cert.{is_empty, sign, to_signature, verify, generate, generate_key, chosen_uid}
use csv_rs.Certs.Csv.Verify.{verify-eq-ok_iff}
use csv_rs.Certs.Csv.Sign.{certificate_of, generate-generate_key, generate_key-Issued, Issued, fill}

module _ (o : BigNums) (l : Sm2Lib) (big : BigNumLaws o) (sm : Sm2Laws l) (der : DerLaws l o) where
  -- Signing leaves the body alone, and the signer's certificate accepts what came of it.
  pub record Signs (cert : Certificate) (prv : PrivateKey l.EcKey) (target : Certificate)
      (uid : Bytes) (env : l.Env) : Type 0 where
    pub after : Certificate
    pub signs : sign o l prv target uid env ≡ ok after
    pub same_body : after.body ≡ target.body
    pub accepted : verify o l cert after ≡ ok tt

  sign-Signs :
      (u : Usage) (uid : Bytes) (env env' : l.Env) (key : PubKey) (prv : PrivateKey l.EcKey)
      (p : l.Pkey) (target : Certificate) (s t : Option Signature)
      → length uid ≤ 254
      → Issued l env u key prv
      → IsCertificate (certificate_of uid key)
      → l.pkey_allocated env' ≡ true
      → l.pkey_assign prv.key ≡ some p
      → to_signature o target.sig0 ≡ ok s
      → to_signature o target.sig1 ≡ ok t
      → (is_empty target.sig0 ≡ true) ⊎ (is_empty target.sig1 ≡ true)
      → Signs (certificate_of uid key) prv target uid env'
  unfolding sign
  sign-Signs u uid env env' key prv p target s t short issued fits allocated assigned fst snd free =
      let (f, good) =
        fill o l big sm der u uid env env' key prv p short issued allocated assigned target.body in
      let cert = certificate_of uid key in
      elim (Bool-cases (is_empty target.sig0)) [
        | inl empty0 ↦
            let after : Certificate = record target { sig0 = f.slot } in
            record {
              after = after;
              signs = rw (empty0, f.made);
              same_body = refl;
              accepted = (verify-eq-ok_iff o l cert after _ t fits short f.reads snd).1 (inl good);
            }
        | inr full0 ↦
            let after : Certificate = record target { sig1 = f.slot } in
            let empty1 : is_empty target.sig1 ≡ true = elim free [ inl e ↦ cc | inr e ↦ e ] in
            record {
              after = after;
              signs = rw (full0, empty1, f.made);
              same_body = refl;
              accepted = (verify-eq-ok_iff o l cert after s _ fits short fst f.reads).1 (inr good);
            }
      ]

  -- A generated certificate whose user id fits its field, and any other with a free slot and readable
  -- signatures: with memory for the key, signing under the same user id succeeds, keeps the body, and
  -- the generated certificate then accepts the other.
  pub verify-sign_certificate :
      (u : Usage) (given : Option Bytes) (uid : Bytes) (env env' : l.Env) (cert : Certificate)
      (prv : PrivateKey l.EcKey) (p : l.Pkey) (target : Certificate) (s t : Option Signature)
      → chosen_uid u given ≡ ok uid
      → length uid ≤ 254
      → generate l u given env ≡ ok (cert, prv)
      → IsCertificate cert
      → l.pkey_allocated env' ≡ true
      → l.pkey_assign prv.key ≡ some p
      → to_signature o target.sig0 ≡ ok s
      → to_signature o target.sig1 ≡ ok t
      → (is_empty target.sig0 ≡ true) ⊎ (is_empty target.sig1 ≡ true)
      → Signs cert prv target uid env'
  verify-sign_certificate u given uid env env' cert prv p target s t chosen short made fits
        allocated assigned fst snd free =
      let keys =
        >>=-eq-ok (generate_key l u none env) _
          (sym (generate-generate_key l u given env uid chosen (omega arith)) ∙ made) in
      let same : Path (Certificate × PrivateKey l.EcKey) (certificate_of uid keys.0.0, keys.0.1)
          (cert, prv) =
        ok_injective keys.2 in
      subst
        (λ (q : Certificate × PrivateKey l.EcKey).
          IsCertificate q.0 → l.pkey_assign q.1.key ≡ some p → Signs q.0 q.1 target uid env')
        same
        (λ fits assigned.
          sign-Signs u uid env env' keys.0.0 keys.0.1 p target s t short
            (generate_key-Issued l u none env keys.1) fits allocated assigned fst snd free)
        fits assigned
