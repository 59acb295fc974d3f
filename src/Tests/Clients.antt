-- ===== src/Tests/Clients.antt =====
-- A guest's client with a device, a server and a root that it can trust.
use csv_rs.Base.{all_bytes-IsBytes}
use csv_rs.Base.{
  ap, sym, ◌∙◌, append-nil, ◌%◌, IsBytes, Bytes, [], ◌∷◌, ◌++◌, ◌≡◌, refl, subst, ok_injective,
  some, none, Option, ok, Outcome, replicate, length, arith,
}
use csv_rs.Error.{Error}
use csv_rs.Util.Memory.{le_bytes, le_value}
use csv_rs.Crypto.Encrypt.{xor_bytes}
use csv_rs.Certs.Usage as Usages
use csv_rs.Certs.Csv.Data as Csv
use csv_rs.Certs.Ca.Data as Ca
use csv_rs.Api.Guest.Report as Report
use csv_rs.Api.Guest.Report.{AttestationReport, ReportRsp, report_rsp}
use csv_rs.Api.Guest.ReportLaws.{Reported, verify-iff-Reported}
use csv_rs.Api.Guest.Device.{GuestReportRequest, get_report}
use csv_rs.Api.Guest.Client.{get_report_and_verify}
use csv_rs.Api.Guest.ClientLaws.{IsOutside, Genuine, get_report_and_verify-iff-Genuine}
use csv_rs.Crypto.Ecdsa
use csv_rs.Crypto.Ecc
use csv_rs.Crypto.Sm2
use csv_rs.Crypto
use csv_rs.Certs.Ca.Cert as CaCert
use csv_rs.Certs.Csv.Cert as CsvCert
use csv_rs.Util.{load, read_exact, save, slice_to}
use csv_rs.Util.BigNum.{from_le}
use csv_rs.Version.{version}
use csv_rs.Api.Guest.Request as Request
use csv_rs.Api.Guest.Signer as Signer
use csv_rs.Api.Guest.Device as Device
use csv_rs.Api.Guest.Client as Client
use csv_rs.Tests.Toy.{some_injective, total, numbers, curve, sum_hash}
use csv_rs.Tests.Guests.{hashes}
use csv_rs.Certs.Trust.{verify-iff-Trusted}
use csv_rs.Certs.Ca.RoundTrip as CaRead
use csv_rs.Certs.Csv.RoundTrip as CsvRead
use csv_rs.Tests.Trusted.{
  trusted-AreCertificates, trusted, sealed, trusted-IsChain, trusted_verifies,
}

-- Masked with bytes of five.
abbrev mask : Bytes → Bytes
mask b = xor_bytes (replicate (length b) 5) b

abbrev measured : Report.Body
measured = record Report.empty.report.body {
  report_data = replicate 64 4;
  mnonce = replicate 16 15;
}

abbrev signed : AttestationReport
signed = record Report.empty.report {
  body = measured;
  anonce = 0x05050505;
  sig = sealed (Report.body.to_bytes measured);
}

abbrev pek_bytes : Bytes
pek_bytes = mask (Csv.certificate.to_bytes trusted.csv.pek)

abbrev serial : Bytes
serial = replicate 64 49

abbrev answer : ReportRsp
answer = record {
  report = signed;
  signer = record {
    pek_cert = pek_bytes;
    sn = mask serial;
    reserved = replicate 32 0;
    mac = sum_hash (replicate 16 10 ++ (pek_bytes ++ mask serial ++ replicate 32 0));
  };
  reserved = replicate 1548 0;
}

abbrev device : GuestReportRequest → Bytes → Outcome Error Bytes
device request page = ok (report_rsp.to_bytes answer)

abbrev download : Bytes → Option Bytes
download sn =
    some (Ca.certificate.to_bytes trusted.ca.hsk ++ Csv.certificate.to_bytes trusted.csv.cek)

abbrev root : Bytes
root = Ca.certificate.to_bytes trusted.ca.hrk

outside : IsOutside device download root
unfolding replicate report_rsp Report.report Report.body Report.signer Ecdsa.signature le_bytes
    xor_bytes Csv.certificate Csv.signatures Csv.body Csv.info Csv.pub_key Ecc.pub_key version
    Ca.certificate Ca.body Ca.info Ca.preamble CsvCert.no_signature
outside = record {
  pages = λ request page e. subst IsBytes (ok_injective e) page_IsBytes;
  answers = λ sn e. subst IsBytes (some_injective e) answer_IsBytes;
  built_in = root_IsBytes;
}
  where
    page_IsBytes : IsBytes (report_rsp.to_bytes answer)
    page_IsBytes = all_bytes-IsBytes (report_rsp.to_bytes answer) refl

    answer_IsBytes :
        IsBytes (Ca.certificate.to_bytes trusted.ca.hsk ++ Csv.certificate.to_bytes trusted.csv.cek)
    answer_IsBytes =
        all_bytes-IsBytes
          (Ca.certificate.to_bytes trusted.ca.hsk ++ Csv.certificate.to_bytes trusted.csv.cek) refl

    root_IsBytes : IsBytes root
    root_IsBytes = all_bytes-IsBytes root refl

abbrev evidence : Signer.ReportSigner
evidence = record {
  pek_cert = Csv.certificate.to_bytes trusted.csv.pek;
  sn = serial;
  reserved = replicate 32 0;
  mac = answer.signer.mac;
}

got :
    get_report hashes device 4096 (some (replicate 64 1)) none (replicate 16 10)
    ≡ ok (signed, evidence)
unfolding xor_bytes Csv.certificate Csv.signatures get_report Request.new Request.copy_from_slice
    replicate Signer.verify Signer.xor_with_anonce Signer.xor_from report_rsp Report.report
    Report.body Ecdsa.signature Signer.byte_at le_bytes Device.chosen_nonce le_value Report.signer
    Client.xor_anonce Device.report_request Device.request_page Report.encode Report.report_req
    Report.signature Report.verify Request.calculate_hash Signer.restore CaCert.decode CaCert.encode
    CaCert.public_key CaCert.signature CaCert.verify Ca.body Ca.info Ca.preamble CsvCert.accepts
    CsvCert.any_signature CsvCert.decode CsvCert.decode_signatures CsvCert.encode CsvCert.is_empty
    CsvCert.public_key CsvCert.to_signature CsvCert.to_signatures CsvCert.verify
    CsvCert.verify_by_ca Csv.body Csv.info Csv.pub_key Usages.is_usage Ecc.group_size Ecc.pub_key
    Ecdsa.to_ecdsa_sig Ecdsa.to_vec Sm2.ec_key Sm2.verify Crypto.algo_agrees Crypto.id_agrees
    Crypto.verify from_le load read_exact save slice_to version
got = refl

-- A whole certificate is read to its end.
read_csv :
    (c : Csv.Certificate)
    → Csv.IsCertificate c
    → CsvCert.decode (Csv.certificate.to_bytes c) ≡ ok (c, [])
read_csv c fits =
    ap CsvCert.decode (sym (append-nil (Csv.certificate.to_bytes c)))
    ∙ CsvRead.decode-to_bytes c [] fits

read_ca :
    (c : Ca.Certificate)
    → Ca.IsCertificate c
    → CaCert.decode (Ca.certificate.to_bytes c) ≡ ok (c, [])
read_ca c fits =
    ap CaCert.decode (sym (append-nil (Ca.certificate.to_bytes c)))
    ∙ CaRead.decode-to_bytes c [] fits

signed-Reported : Reported numbers curve trusted.csv.pek signed
unfolding CsvCert.usage replicate Report.body le_bytes Ecdsa.to_ecdsa_sig Ecdsa.to_vec from_le
    Sm2.verify Sm2.ec_key Ecc.group_size slice_to
signed-Reported = record {
  endorser = refl;
  room = omega arith;
  der = total (Report.body.to_bytes measured) % 32 ∷ 3 ∷ [];
  read = refl;
  sm2 = refl;
}

genuine : Genuine numbers curve hashes device 4096 download root (replicate 64 1) (replicate 16 10)
unfolding Signer.xor_with_anonce Signer.xor_from Signer.byte_at le_bytes replicate
genuine =
    let trust =
      (verify-iff-Trusted numbers curve trusted trusted-AreCertificates trusted.csv.pdh).0
        trusted_verifies in
    record {
      report = signed;
      evidence = evidence;
      got = got;
      answer = Ca.certificate.to_bytes trusted.ca.hsk ++ Csv.certificate.to_bytes trusted.csv.cek;
      downloaded = refl;
      hsk = trusted.ca.hsk;
      cek = trusted.csv.cek;
      pek = trusted.csv.pek;
      hrk = trusted.ca.hrk;
      behind_hsk = Csv.certificate.to_bytes trusted.csv.cek;
      behind_cek = [];
      behind_pek = [];
      behind_hrk = [];
      read_hsk = CaRead.decode-to_bytes trusted.ca.hsk _ trusted-IsChain.ca.hsk;
      read_cek = read_csv trusted.csv.cek trusted-IsChain.csv.cek;
      read_pek = read_csv trusted.csv.pek trusted-IsChain.csv.pek;
      read_hrk = read_ca trusted.ca.hrk trusted-IsChain.ca.hrk;
      traced = record {
        rooted = trust.1.root;
        signing = trust.1.signing;
        chip = trust.1.chip;
        platform = trust.1.platform;
        reported = signed-Reported;
      };
      same_data = refl;
      cleared = refl;
    }

verify-iff-Reported_example : Report.verify numbers curve trusted.csv.pek signed ≡ ok tt
verify-iff-Reported_example =
    (verify-iff-Reported numbers curve trusted.csv.pek signed trusted-IsChain.csv.pek).1
      signed-Reported

get_report_and_verify-iff-Genuine_example :
    get_report_and_verify numbers curve hashes device 4096 download root
      (replicate 64 1)
      (replicate 16 10)
    ≡ ok tt
get_report_and_verify-iff-Genuine_example =
    (get_report_and_verify-iff-Genuine numbers curve hashes device 4096 download root
        (replicate 64 1) (replicate 16 10) outside).1
      genuine
