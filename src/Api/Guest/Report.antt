-- ===== src/Api/Guest/Report.antt =====
-- src/api/guest/types.rs: the attestation report, the page it comes in, and its check against the
-- platform's certificate.
use csv_rs.Base.{ℕ, ◌≡◌, [], Bytes, refl, replicate, none, Outcome, ok, ◌>>=◌}
use csv_rs.Error.{IoError}
use csv_rs.OpenSsl.{BigNums, Sm2Lib}
use csv_rs.Util.{save, slice_to}
use csv_rs.Util.Memory.{Layout, array, word, fields, structure}
use csv_rs.Crypto
use csv_rs.Crypto.{Signature}
use csv_rs.Crypto.Ecdsa
use csv_rs.Certs.Usage as Usages
use csv_rs.Certs.Csv.Data.{Certificate}
use csv_rs.Certs.Csv.Cert.{public_key}
use csv_rs.Api.Guest.GuestPolicy.{GuestPolicy}
use csv_rs.Api.Guest.Request.{ReportReq}
use csv_rs.Api.Guest.Signer.{ReportSigner}

pub record Body : Type 0 where
  pub user_pubkey_digest : Bytes
  pub vm_id : Bytes
  pub vm_version : Bytes
  pub report_data : Bytes
  pub mnonce : Bytes
  pub measure : Bytes
  pub policy : GuestPolicy

pub record AttestationReport : Type 0 where
  pub body : Body
  pub sig_usage : ℕ
  pub sig_algo : ℕ
  pub anonce : ℕ
  pub sig : Ecdsa.Signature

pub record ReportRsp : Type 0 where
  pub report : AttestationReport
  pub signer : ReportSigner
  pub reserved : Bytes

unfoldable pub report_req : Layout ReportReq
report_req =
    structure (fields (array 64) (fields (array 16) (array 32)))
      (λ (d, t). record { guest_data = d; mnonce = t.0; hash = t.1 })
      (λ r. (r.guest_data, (r.mnonce, r.hash)))

unfoldable pub body : Layout Body
body =
    structure
      (fields (array 32) (
        fields (array 16)
          (fields (array 16) (fields (array 64) (fields (array 16) (fields (array 32) (word 4)))))))
      (λ (d, t). record {
        user_pubkey_digest = d;
        vm_id = t.0;
        vm_version = t.1.0;
        report_data = t.1.1.0;
        mnonce = t.1.1.1.0;
        measure = t.1.1.1.1.0;
        policy = t.1.1.1.1.1;
      })
      (λ b. (
        b.user_pubkey_digest,
        (b.vm_id, (b.vm_version, (b.report_data, (b.mnonce, (b.measure, b.policy))))),
      ))

unfoldable pub report : Layout AttestationReport
report =
    structure (fields body (fields (word 4) (fields (word 4) (fields (word 4) Ecdsa.signature))))
      (λ (b, t). record {
        body = b;
        sig_usage = t.0;
        sig_algo = t.1.0;
        anonce = t.1.1.0;
        sig = t.1.1.1;
      })
      (λ r. (r.body, (r.sig_usage, (r.sig_algo, (r.anonce, r.sig)))))

unfoldable pub signer : Layout ReportSigner
signer =
    structure (fields (array 2084) (fields (array 64) (fields (array 32) (array 32))))
      (λ (p, t). record { pek_cert = p; sn = t.0; reserved = t.1.0; mac = t.1.1 })
      (λ s. (s.pek_cert, (s.sn, (s.reserved, s.mac))))

-- A page of 4096 bytes; the padding is what the two structures leave of it.
unfoldable pub report_rsp : Layout ReportRsp
report_rsp =
    structure (fields report (fields signer (array 1548)))
      (λ (r, t). record { report = r; signer = t.0; reserved = t.1 })
      (λ r. (r.report, (r.signer, r.reserved)))

-- `impl Default for ReportSigner`
abbrev pub no_evidence : ReportSigner
no_evidence = record {
  pek_cert = replicate 2084 0;
  sn = replicate 64 0;
  reserved = replicate 32 0;
  mac = replicate 32 0;
}

-- `impl Default for ReportRsp`
abbrev pub empty : ReportRsp
empty = record {
  report = record {
    body = record {
      user_pubkey_digest = replicate 32 0;
      vm_id = replicate 16 0;
      vm_version = replicate 16 0;
      report_data = replicate 64 0;
      mnonce = replicate 16 0;
      measure = replicate 32 0;
      policy = 0;
    };
    sig_usage = 0;
    sig_algo = 0;
    anonce = 0;
    sig = Ecdsa.empty;
  };
  signer = no_evidence;
  reserved = replicate 1548 0;
}

-- `const_assert!(size_of::<ReportRsp>() == 4096)`
report_rsp-page : report_rsp.size ≡ 4096
unfolding report_rsp report signer body Ecdsa.signature
report_rsp-page = refl

-- `Encoder<Body>::encode`: the body alone.
unfoldable pub encode : AttestationReport → Bytes → Outcome IoError Bytes
encode r writer = save body r.body writer

module _ (o : BigNums) (l : Sm2Lib) where
  -- `TryFrom<&AttestationReport> for Signature`
  unfoldable pub signature : AttestationReport → Outcome IoError Signature
  signature value = do
    sig ← Ecdsa.to_vec o value.sig
    ok (record { sig = sig; id = none; usage = Usages.pek; algo = none })

  -- `(&Certificate, &AttestationReport)::verify`
  unfoldable pub verify : Certificate → AttestationReport → Outcome IoError (Unit {0})
  unfolding signature encode
  verify cert r = do
    sig ← signature r
    uid ← slice_to cert.body.info.uid_size cert.body.info.user_id
    Crypto.verify l (public_key cert) (encode r []) uid sig
