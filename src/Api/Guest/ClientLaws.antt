-- ===== src/Api/Guest/ClientLaws.antt =====
-- tests/guest.rs: which reports the client takes for genuine.
use csv_rs.Base.{
  subst, ok_injective, expect_bind-eq-ok, assert_then-eq-ok, assert-eq-ok, bytes_eq_refl, ℕ, ◌≡◌,
  ◌↔◌, sym, ◌∙◌, ap, Bytes, IsBytes, All-take, All-drop, IsByte, replicate, bytes_eq, bytes_eq_iff,
  some, none, Option, Outcome, ok, unwrap_bind-eq-ok, >>=-eq-ok,
}
use csv_rs.Error.{Error}
use csv_rs.OpenSsl.{BigNums, Sm2Lib}
use csv_rs.Certs.Ca.Cert as Ca
use csv_rs.Certs.Ca.Data as CaData
use csv_rs.Certs.Ca.RoundTrip as CaRead
use csv_rs.Certs.Ca.Verify.{RootSigned, verify-iff-RootSigned}
use csv_rs.Certs.Csv.Cert as Csv
use csv_rs.Certs.Csv.Data as CsvData
use csv_rs.Certs.Csv.RoundTrip as CsvRead
use csv_rs.Certs.Csv.Verify.{
  Endorsed, EndorsedByCa, verify-iff-Endorsed, verify_by_ca-iff-EndorsedByCa,
}
use csv_rs.Api.Guest.Request.{HashLib}
use csv_rs.Api.Guest.Signer.{ReportSigner, xor_with_anonce, restore}
use csv_rs.Api.Guest.SignerLaws.{xor_with_anonce-IsBytes, xor_with_anonce-twice}
use csv_rs.Api.Guest.Report as Report
use csv_rs.Api.Guest.Report.{AttestationReport, report_rsp, signer, report}
use csv_rs.Api.Guest.ReportLaws.{Reported, verify-iff-Reported}
use csv_rs.Api.Guest.Device.{GuestReportRequest, get_report, get_report-Attested}
use csv_rs.Api.Guest.Client.{xor_anonce, get_report_and_verify}

-- The root signed itself and the signing key, that the chip's key, that the platform's, and that the
-- report.
pub record Traced (o : BigNums) (l : Sm2Lib) (hrk hsk : CaData.Certificate)
    (cek pek : CsvData.Certificate) (r : AttestationReport) : Type 0 where
  pub rooted : RootSigned o l hrk hrk
  pub signing : RootSigned o l hrk hsk
  pub chip : EndorsedByCa o l hsk cek
  pub platform : Endorsed o l cek pek
  pub reported : Reported o l pek r

-- The five certificates' checks, one by one, for certificates of the Rust type.
record AllVerify (o : BigNums) (l : Sm2Lib) (hrk hsk : CaData.Certificate)
    (cek pek : CsvData.Certificate) (r : AttestationReport) : Type 0 where
  rooted : Ca.verify o l hrk hrk ≡ ok tt
  signing : Ca.verify o l hrk hsk ≡ ok tt
  chip : Csv.verify_by_ca o l hsk cek ≡ ok tt
  platform : Csv.verify o l cek pek ≡ ok tt
  reported : Report.verify o l pek r ≡ ok tt

AllVerify-iff-Traced :
    (o : BigNums) (l : Sm2Lib) (hrk hsk : CaData.Certificate) (cek pek : CsvData.Certificate)
    (r : AttestationReport)
    → CaData.IsCertificate hrk
    → CaData.IsCertificate hsk
    → CsvData.IsCertificate cek
    → CsvData.IsCertificate pek
    → AllVerify o l hrk hsk cek pek r ↔ Traced o l hrk hsk cek pek r
AllVerify-iff-Traced o l hrk hsk cek pek r fits_hrk fits_hsk fits_cek fits_pek =
    let rooted = verify-iff-RootSigned o l hrk hrk fits_hrk in
    let signing = verify-iff-RootSigned o l hrk hsk fits_hrk in
    let chip = verify_by_ca-iff-EndorsedByCa o l hsk cek fits_hsk in
    let platform = verify-iff-Endorsed o l cek pek fits_cek in
    let reported = verify-iff-Reported o l pek r fits_pek in
    (
      λ v. record {
        rooted = rooted.0 v.rooted;
        signing = signing.0 v.signing;
        chip = chip.0 v.chip;
        platform = platform.0 v.platform;
        reported = reported.0 v.reported;
      },
      λ t. record {
        rooted = rooted.1 t.rooted;
        signing = signing.1 t.signing;
        chip = chip.1 t.chip;
        platform = platform.1 t.platform;
        reported = reported.1 t.reported;
      },
    )

module _ (device : GuestReportRequest → Bytes → Outcome Error Bytes)
    (download : Bytes → Option Bytes) (root : Bytes) where
  -- What comes from outside is bytes.
  pub record IsOutside : Type 0 where
    pub pages :
        (request : GuestReportRequest) (page : Bytes) {answer : Bytes}
        → device request page ≡ ok answer
        → IsBytes answer
    pub answers : (sn : Bytes) {answer : Bytes} → download sn ≡ some answer → IsBytes answer
    pub built_in : IsBytes root

module _ (o : BigNums) (l : Sm2Lib) (h : HashLib)
    (device : GuestReportRequest → Bytes → Outcome Error Bytes) (at : ℕ)
    (download : Bytes → Option Bytes) (root : Bytes) where
  -- A report that the device gave for the data and the nonce, with evidence of zeros in its reserved
  -- bytes and a platform certificate that signed the report; the certificates that the server has for the
  -- serial number endorse that certificate, and the built-in root signed itself and the first of them;
  -- the report's own data, unmasked, is the data asked for.
  pub record Genuine (guest_data random : Bytes) : Type 0 where
    pub report : AttestationReport
    pub evidence : ReportSigner
    pub got : get_report h device at (some guest_data) none random ≡ ok (report, evidence)
    pub answer : Bytes
    pub downloaded : download evidence.sn ≡ some answer
    pub hsk : CaData.Certificate
    pub cek : CsvData.Certificate
    pub pek : CsvData.Certificate
    pub hrk : CaData.Certificate
    pub behind_hsk : Bytes
    pub behind_cek : Bytes
    pub behind_pek : Bytes
    pub behind_hrk : Bytes
    pub read_hsk : Ca.decode answer ≡ ok (hsk, behind_hsk)
    pub read_cek : Csv.decode behind_hsk ≡ ok (cek, behind_cek)
    pub read_pek : Csv.decode evidence.pek_cert ≡ ok (pek, behind_pek)
    pub read_hrk : Ca.decode root ≡ ok (hrk, behind_hrk)
    pub traced : Traced o l hrk hsk cek pek report
    pub same_data : xor_with_anonce report.body.report_data report.anonce ≡ ok guest_data
    pub cleared : evidence.reserved ≡ replicate 32 0

  -- The platform certificate in the evidence is made of bytes.
  pek_cert-IsBytes :
      (guest_data random : Bytes) (r : AttestationReport) (s : ReportSigner)
      → IsOutside device download root
      → get_report h device at (some guest_data) none random ≡ ok (r, s)
      → IsBytes s.pek_cert
  unfolding restore report_rsp signer
  pek_cert-IsBytes guest_data random r s outside got =
      let a = get_report-Attested h device at (some guest_data) none random r s got in
      let page = outside.pages _ _ a.answered in
      let (cert, unmasked, rest) =
        >>=-eq-ok (xor_with_anonce a.sent.pek_cert r.anonce) _ a.restored in
      let sent : IsBytes a.sent.pek_cert =
        subst (λ (q : ReportSigner). IsBytes q.pek_cert) a.evidence
          (All-take IsByte 2084 _
            (All-take IsByte signer.size _ (All-drop IsByte report.size a.page page))) in
      let (sn, unmasked', done) = >>=-eq-ok (xor_with_anonce a.sent.sn r.anonce) _ rest in
      subst (λ (q : ReportSigner). IsBytes q.pek_cert) (ok_injective done)
        (xor_with_anonce-IsBytes a.sent.pek_cert cert r.anonce sent unmasked)

  -- What was read from outside is of the Rust type.
  fits :
      (guest_data random answer behind_hsk behind_cek behind_pek behind_hrk : Bytes)
      (r : AttestationReport) (s : ReportSigner) (hsk hrk : CaData.Certificate)
      (cek pek : CsvData.Certificate)
      → IsOutside device download root
      → get_report h device at (some guest_data) none random ≡ ok (r, s)
      → download s.sn ≡ some answer
      → Ca.decode answer ≡ ok (hsk, behind_hsk)
      → Csv.decode behind_hsk ≡ ok (cek, behind_cek)
      → Csv.decode s.pek_cert ≡ ok (pek, behind_pek)
      → Ca.decode root ≡ ok (hrk, behind_hrk)
      → AllVerify o l hrk hsk cek pek r ↔ Traced o l hrk hsk cek pek r
  fits guest_data random answer behind_hsk behind_cek behind_pek behind_hrk r s hsk hrk cek pek
        outside got downloaded read_hsk read_cek read_pek read_hrk =
      let (_, fits_hsk, bytes_hsk) =
        CaRead.decode_inverse answer (outside.answers _ downloaded) read_hsk in
      let (_, fits_cek, _) = CsvRead.decode_inverse behind_hsk bytes_hsk read_cek in
      let (_, fits_pek, _) =
        CsvRead.decode_inverse s.pek_cert (pek_cert-IsBytes guest_data random r s outside got)
          read_pek in
      let (_, fits_hrk, _) = CaRead.decode_inverse root outside.built_in read_hrk in
      AllVerify-iff-Traced o l hrk hsk cek pek r fits_hrk fits_hsk fits_cek fits_pek

  accepted-Genuine :
      (guest_data random : Bytes)
      → IsOutside device download root
      → get_report_and_verify o l h device at download root guest_data random ≡ ok tt
      → Genuine guest_data random
  unfolding get_report_and_verify xor_anonce xor_with_anonce
  accepted-Genuine guest_data random outside e =
      let ((r, s), got, e₀) =
        unwrap_bind-eq-ok (get_report h device at (some guest_data) none random) _ e in
      let (answer, downloaded, e₁) = expect_bind-eq-ok (download s.sn) _ e₀ in
      let ((hsk, behind_hsk), read_hsk, e₂) = unwrap_bind-eq-ok (Ca.decode answer) _ e₁ in
      let ((cek, behind_cek), read_cek, e₃) = unwrap_bind-eq-ok (Csv.decode behind_hsk) _ e₂ in
      let ((pek, behind_pek), read_pek, e₄) = unwrap_bind-eq-ok (Csv.decode s.pek_cert) _ e₃ in
      let ((hrk, behind_hrk), read_hrk, e₅) = unwrap_bind-eq-ok (Ca.decode root) _ e₄ in
      let (t₁, rooted, e₆) = unwrap_bind-eq-ok (Ca.verify o l hrk hrk) _ e₅ in
      let (t₂, signing, e₇) = unwrap_bind-eq-ok (Ca.verify o l hrk hsk) _ e₆ in
      let (t₃, chip, e₈) = unwrap_bind-eq-ok (Csv.verify_by_ca o l hsk cek) _ e₇ in
      let (t₄, platform, e₉) = unwrap_bind-eq-ok (Csv.verify o l cek pek) _ e₈ in
      let (t₅, reported, e₁₀) = unwrap_bind-eq-ok (Report.verify o l pek r) _ e₉ in
      let (masked, mask, e₁₁) = unwrap_bind-eq-ok (xor_anonce guest_data r.anonce) _ e₁₀ in
      let (same, e₁₂) = assert_then-eq-ok (bytes_eq masked r.body.report_data) _ e₁₁ in
      let zeros = assert-eq-ok (bytes_eq (replicate 32 0) s.reserved) e₁₂ in
      record {
        report = r;
        evidence = s;
        got = got;
        answer = answer;
        downloaded = downloaded;
        hsk = hsk;
        cek = cek;
        pek = pek;
        hrk = hrk;
        behind_hsk = behind_hsk;
        behind_cek = behind_cek;
        behind_pek = behind_pek;
        behind_hrk = behind_hrk;
        read_hsk = read_hsk;
        read_cek = read_cek;
        read_pek = read_pek;
        read_hrk = read_hrk;
        traced =
            (fits guest_data random answer behind_hsk behind_cek behind_pek behind_hrk r s hsk hrk
                cek pek outside got downloaded read_hsk read_cek read_pek read_hrk).0
              (record {
                rooted = rooted;
                signing = signing;
                chip = chip;
                platform = platform;
                reported = reported;
              });
        same_data =
            xor_with_anonce-twice r.anonce guest_data r.body.report_data
              (mask ∙ ap Outcome.ok ((bytes_eq_iff _ _).0 same));
        cleared = sym ((bytes_eq_iff _ _).0 zeros);
      }

  -- Where what comes from the device, from the server and from the binary is bytes: the client
  -- accepts exactly if it got the report for its data and nonce, the report's data, unmasked, is
  -- its own, the reserved bytes of the evidence are zeros, and the certificates read from the
  -- evidence, from the server's answer and from the binary bear each other out: the root signed
  -- itself and the signing key, that the chip's key, that the platform's, and that the report.
  pub get_report_and_verify-iff-Genuine :
      (guest_data random : Bytes)
      → IsOutside device download root
      → (get_report_and_verify o l h device at download root guest_data random ≡ ok tt)
        ↔ Genuine guest_data random
  unfolding get_report_and_verify xor_anonce xor_with_anonce
  get_report_and_verify-iff-Genuine guest_data random outside = (
    accepted-Genuine guest_data random outside,
    λ g.
        let v =
          (fits guest_data random g.answer g.behind_hsk g.behind_cek g.behind_pek g.behind_hrk
              g.report g.evidence g.hsk g.hrk g.cek g.pek outside g.got g.downloaded g.read_hsk
              g.read_cek g.read_pek g.read_hrk).1
            g.traced in
        let masked =
          xor_with_anonce-twice g.report.anonce g.report.body.report_data guest_data g.same_data in
        rw (
          g.got,
          g.downloaded,
          g.read_hsk,
          g.read_cek,
          g.read_pek,
          g.read_hrk,
          v.rooted,
          v.signing,
          v.chip,
          v.platform,
          v.reported,
          masked,
          bytes_eq_refl g.report.body.report_data,
          g.cleared,
          bytes_eq_refl (replicate 32 0),
        ),
  )
