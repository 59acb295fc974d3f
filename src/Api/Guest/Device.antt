-- ===== src/Api/Guest/Device.antt =====
-- src/api/guest/mod.rs and ioctl.rs: the request of a report from within a guest.
use csv_rs.Base.{
  ℕ, ◌%◌, ◌^◌, length, Bytes, ◌++◌, ◌≡◌, drop, Option, some, none, Outcome, ok, ◌>>=◌, >>=-eq-ok,
  ok_injective, refl, subst, replicate,
}
use csv_rs.Error.{Error}
use csv_rs.Api.Guest.Request.{HashLib, ReportReq, data_or_zeros, new, new-Requests}
use csv_rs.Api.Guest.Signer.{ReportSigner, xor_with_anonce, restore, verify}
use csv_rs.Api.Guest.SignerLaws.{verify-iff-restore}
use csv_rs.Util.Memory.{le_bytes}
use csv_rs.Crypto.Ecdsa
use csv_rs.Api.Guest.Report.{AttestationReport, report_req, report_rsp, report, signer, body, empty}

-- The nonce given, or the random one.
unfoldable pub chosen_nonce : Option Bytes → Bytes → Bytes
chosen_nonce none random = random
chosen_nonce (some mnonce) random = mnonce

-- The page that goes to the device: the request in front of an empty response.
unfoldable pub request_page : ReportReq → Bytes
request_page r = report_req.to_bytes r ++ drop report_req.size (report_rsp.to_bytes empty)

-- The parts of the request, and zeros.
request_page-eq :
    (r : ReportReq) → request_page r ≡ (r.guest_data ++ (r.mnonce ++ r.hash)) ++ replicate 3984 0
unfolding request_page report_req report_rsp report signer body Ecdsa.signature le_bytes replicate
request_page-eq r = refl

-- `struct GuestReportRequest`
pub record GuestReportRequest : Type 0 where
  pub addr : ℕ
  pub len : ℕ

-- `GuestReportRequest::new`, of the place of a page.
unfoldable pub report_request : ℕ → Bytes → GuestReportRequest
report_request addr page = record { addr = addr; len = length page % 2 ^ 32 }

module _ (h : HashLib) (device : GuestReportRequest → Bytes → Outcome Error Bytes) (at : ℕ) where
  -- `CsvGuest::get_report`, with its page at `at`; `device` is the ioctl, from the page before to the
  -- page after.
  unfoldable pub get_report :
      Option Bytes → Option Bytes → Bytes → Outcome Error (AttestationReport × ReportSigner)
  get_report guest_data mnonce random = do
    let mnonce_value = chosen_nonce mnonce random
    request ← new h guest_data mnonce_value
    page ← device (report_request at (request_page request)) (request_page request)
    let response = report_rsp.of_bytes page
    signer ←
        verify h response.signer mnonce_value response.report.body.mnonce response.report.anonce
    ok (response.report, signer)

  -- What a report that is handed out rests on, with the page that the device gave.
  pub record Attested (guest_data : Option Bytes) (nonce : Bytes) (r : AttestationReport)
      (s : ReportSigner) : Type 0 where
    pub request : ReportReq
    pub page : Bytes
    pub sent : ReportSigner
    pub asked : new h guest_data nonce ≡ ok request
    pub asked_data : request.guest_data ≡ data_or_zeros guest_data
    pub asked_nonce : request.mnonce ≡ nonce
    pub digested : h.sm3 (data_or_zeros guest_data ++ nonce) ≡ ok request.hash
    pub asked_page : Bytes
    pub starts :
        asked_page ≡ (request.guest_data ++ (request.mnonce ++ request.hash)) ++ replicate 3984 0
    pub answered :
        device (record { addr = at; len = length asked_page % 2 ^ 32 }) asked_page ≡ ok page
    pub carried : (report_rsp.of_bytes page).report ≡ r
    pub evidence : (report_rsp.of_bytes page).signer ≡ sent
    pub fresh : xor_with_anonce r.body.mnonce r.anonce ≡ ok nonce
    pub sealed : h.hmac nonce (sent.pek_cert ++ sent.sn ++ sent.reserved) ≡ ok sent.mac
    pub restored : restore sent r.anonce ≡ ok s

  -- A report is handed out only if it is the one that the device wrote into the page that it was
  -- given, with the data or zeros, this very nonce and the digest of both in front and zeros
  -- behind; if the report's own nonce, unmasked, is the one asked for; and if the evidence beside
  -- it has the MAC under that nonce; the evidence is handed out unmasked.
  pub get_report-Attested :
      (guest_data mnonce : Option Bytes) (random : Bytes) (r : AttestationReport) (s : ReportSigner)
      → get_report guest_data mnonce random ≡ ok (r, s)
      → Attested guest_data (chosen_nonce mnonce random) r s
  unfolding get_report report_request
  get_report-Attested guest_data mnonce random r s e =
      let nonce = chosen_nonce mnonce random in
      let asked = >>=-eq-ok (new h guest_data nonce) _ e in
      let answered =
        >>=-eq-ok (device (report_request at (request_page asked.0)) (request_page asked.0)) _
          asked.2 in
      let (asked_data, asked_nonce, digested) = new-Requests h guest_data nonce asked.1 in
      let response = report_rsp.of_bytes answered.0 in
      let checked =
        >>=-eq-ok
          (verify h response.signer nonce response.report.body.mnonce response.report.anonce) _
          answered.2 in
      let same : Path (AttestationReport × ReportSigner) (response.report, checked.0) (r, s) =
        ok_injective checked.2 in
      let (fresh, sealed, restored) =
        (verify-iff-restore h response.signer nonce response.report.body.mnonce
            response.report.anonce checked.0).0
          checked.1 in
      subst (λ (p : AttestationReport × ReportSigner). Attested guest_data nonce p.0 p.1) same
        (record {
          request = asked.0;
          asked_data = asked_data;
          asked_nonce = asked_nonce;
          digested = digested;
          asked_page = request_page asked.0;
          starts = request_page-eq asked.0;
          page = answered.0;
          sent = response.signer;
          asked = asked.1;
          answered = answered.1;
          carried = refl;
          evidence = refl;
          fresh = fresh;
          sealed = sealed;
          restored = restored;
        })
