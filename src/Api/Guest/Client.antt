-- ===== src/Api/Guest/Client.antt =====
-- tests/guest.rs: a client that asks for a report and traces it back to the built-in root.
use csv_rs.Base.{
  ℕ, Bytes, replicate, bytes_eq, some, none, Option, Outcome, ◌>>=◌, ◌>>◌, unwrap, assert, expect,
}
use csv_rs.Error.{Error, IoError}
use csv_rs.OpenSsl.{BigNums, Sm2Lib}
use csv_rs.Util.Memory.{le_bytes}
use csv_rs.Certs.Ca.Cert as Ca
use csv_rs.Certs.Csv.Cert as Csv
use csv_rs.Api.Guest.Request.{HashLib}
use csv_rs.Api.Guest.Signer.{xor_from}
use csv_rs.Api.Guest.Report as Report
use csv_rs.Api.Guest.Device.{GuestReportRequest, get_report}

-- `xor_anonce`
unfoldable pub xor_anonce : Bytes → ℕ → Outcome Error Bytes
xor_anonce guest_data anonce_u32 = xor_from (le_bytes 4 anonce_u32) 0 guest_data

-- `download` is what the vendor's server answers for a serial number, as `download_hskcek` asks it;
-- `root` is the built-in certificate.
module _ (o : BigNums) (l : Sm2Lib) (h : HashLib)
    (device : GuestReportRequest → Bytes → Outcome Error Bytes) (at : ℕ)
    (download : Bytes → Option Bytes) (root : Bytes) where
  -- `get_report_and_verify`, for some data and a random nonce.
  unfoldable pub get_report_and_verify : Bytes → Bytes → Outcome IoError (Unit {0})
  get_report_and_verify guest_data random = do
    (report, evidence) ← unwrap (get_report h device at (some guest_data) none random)
    cert_data ← expect (download evidence.sn)
    (hsk, cert_data) ← unwrap (Ca.decode cert_data)
    (cek, cert_data) ← unwrap (Csv.decode cert_data)
    (pek, rest) ← unwrap (Csv.decode evidence.pek_cert)
    (hrk, rest) ← unwrap (Ca.decode root)
    unwrap (Ca.verify o l hrk hrk)
    unwrap (Ca.verify o l hrk hsk)
    unwrap (Csv.verify_by_ca o l hsk cek)
    unwrap (Csv.verify o l cek pek)
    unwrap (Report.verify o l pek report)
    masked ← unwrap (xor_anonce guest_data report.anonce)
    assert (bytes_eq masked report.body.report_data)
    assert (bytes_eq (replicate 32 0) evidence.reserved)
