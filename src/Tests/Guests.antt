-- ===== src/Tests/Guests.antt =====
-- The properties of guests' reports and policies, at small inputs and at a whole page.
use csv_rs.Base.{
  ◌+◌, ◌*◌, ◌^◌, arith, Bytes, [], ◌∷◌, ◌++◌, ◌≡◌, refl, some, none, ok, Outcome, replicate,
}
use csv_rs.Error.{Error}
use csv_rs.Util.Memory.{le_bytes, le_value}
use csv_rs.Crypto.Ecdsa
use csv_rs.Api.Guest.GuestPolicy.{
  flags, hsk_version, cek_version, api_major, api_minor, xor, fields-tile,
}
use csv_rs.Api.Guest.Request.{HashLib, new, calculate_hash, copy_from_slice}
use csv_rs.Api.Guest.Signer.{ReportSigner, byte_at, xor_from, xor_with_anonce, restore, verify}
use csv_rs.Api.Guest.SignerLaws.{verify-iff-restore, verify-of-masked}
use csv_rs.Api.Guest.Report as Report
use csv_rs.Api.Guest.Report.{AttestationReport, ReportRsp, report_rsp, report, signer, body}
use csv_rs.Api.Guest.Device.{
  GuestReportRequest, get_report, Attested, get_report-Attested, chosen_nonce,
}
use csv_rs.Tests.Toy.{sum_hash}

abbrev pub hashes : HashLib
hashes = record { sm3 = λ b. ok (sum_hash b); hmac = λ k b. ok (sum_hash (k ++ b)) }

-- The nonce 10, 20, 30 masked by the bytes 4, 3, 2, 1.
abbrev evidence : ReportSigner
evidence = record {
  pek_cert = 5 ∷ 6 ∷ [];
  sn = 9 ∷ [];
  reserved = 7 ∷ [];
  mac = sum_hash (10 ∷ 20 ∷ 30 ∷ 5 ∷ 6 ∷ 9 ∷ 7 ∷ []);
}

verify-iff-restore_example :
    verify hashes evidence (10 ∷ 20 ∷ 30 ∷ []) (14 ∷ 23 ∷ 28 ∷ []) 0x01020304
    ≡ ok (record { pek_cert = 1 ∷ 5 ∷ []; sn = 13 ∷ []; reserved = 0 ∷ []; mac = evidence.mac })
unfolding xor_with_anonce xor_from byte_at restore le_bytes replicate
verify-iff-restore_example =
    (verify-iff-restore hashes evidence (10 ∷ 20 ∷ 30 ∷ []) (14 ∷ 23 ∷ 28 ∷ []) 0x01020304
        (record { pek_cert = 1 ∷ 5 ∷ []; sn = 13 ∷ []; reserved = 0 ∷ []; mac = evidence.mac })).1
      (refl, refl, refl)

verify-of-masked_example :
    verify hashes evidence (10 ∷ 20 ∷ 30 ∷ []) (14 ∷ 23 ∷ 28 ∷ []) 0x01020304
    ≡ ok (record {
      pek_cert = 1 ∷ 5 ∷ [];
      sn = 13 ∷ [];
      reserved = replicate 1 0;
      mac = evidence.mac;
    })
unfolding xor_with_anonce xor_from byte_at le_bytes
verify-of-masked_example =
    verify-of-masked hashes (1 ∷ 5 ∷ []) (13 ∷ []) (7 ∷ []) evidence.mac (10 ∷ 20 ∷ 30 ∷ [])
      (5 ∷ 6 ∷ []) (9 ∷ []) (14 ∷ 23 ∷ 28 ∷ []) 0x01020304 refl refl refl refl

fields-tile_example :
    (0x12345678
      ≡ flags 0x12345678
        + 2 ^ 8 * hsk_version 0x12345678
        + 2 ^ 12 * cek_version 0x12345678
        + 2 ^ 16 * api_major 0x12345678
        + 2 ^ 24 * api_minor 0x12345678)
    × (xor (xor 0x12345678 5) 5 ≡ 0x12345678)
fields-tile_example = fields-tile 0x12345678 5 (omega arith)

-- A device that answers with masked evidence for the nonce of sixteen tens.
abbrev answer : ReportRsp
answer = record {
  report = record Report.empty.report {
    body = record Report.empty.report.body { mnonce = replicate 16 15 };
    anonce = 0x05050505;
  };
  signer = record Report.empty.signer { mac = sum_hash (replicate 16 10) };
  reserved = replicate 1548 0;
}

abbrev restored : ReportSigner
restored = record {
  pek_cert = replicate 2084 5;
  sn = replicate 64 5;
  reserved = replicate 32 0;
  mac = sum_hash (replicate 16 10);
}

abbrev device : GuestReportRequest → Bytes → Outcome Error Bytes
device request page = ok (report_rsp.to_bytes answer)

get_report-Attested_example :
    Attested hashes device 4096 none (replicate 16 10) answer.report restored
unfolding get_report chosen_nonce new calculate_hash copy_from_slice verify restore xor_with_anonce
    xor_from byte_at le_bytes le_value report_rsp report signer body Ecdsa.signature replicate
get_report-Attested_example =
    get_report-Attested hashes device 4096 none (some (replicate 16 10)) [] answer.report restored
      refl
