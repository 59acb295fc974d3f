-- ===== src/Tests/Platforms.antt =====
-- The properties of the platform's firmware, at a device that answers and one that refuses.
use csv_rs.Base.{
  ◌↔◌, ◌∷◌, [], ℕ, ◌==◌, ◌≡◌, if◌then◌else◌, refl, arith, Bytes, replicate, some, none, ok, err,
}
use csv_rs.Error.{os, known, io_error}
use csv_rs.Certs.Usage as Usages
use csv_rs.Certs.Csv.Data as Csv
use csv_rs.Api.Platform.Types as Types
use csv_rs.Api.Platform.Types.{working, PlatformStatus, region, certificates}
use csv_rs.Api.Platform.Command.{Device, place, command, Command, Heap}
use csv_rs.Api.Platform.Delivery.{Apart, Imported, watching, pek_cert_import-Imported}
use csv_rs.Api.Platform.Firmware.{
  Places, platform_reset, platform_status, pek_generate, pek_csr, pdh_generate, pdh_cert_export,
  pek_cert_import, get_identifier,
}
use csv_rs.Api.Platform.Answers.{
  two_working, platform_status-answered, platform-refused, pdh_cert_export-answered,
}
use csv_rs.Tests.Kernels.{empty_heap}
use csv_rs.Tests.Samples.{certificate, certificate-IsCertificate}

abbrev places : Places
places = record { subcommand = 16; pdh = 4096; chain = 8192; pek = 16384; oca = 32768; id = 128 }

abbrev info : PlatformStatus
info = record {
  version = record { major = 1; minor = 3 };
  state = 2;
  flags = 1;
  build = 7;
  guest_count = 4;
}

-- It is in use by four guests, has a chain, and an identifier of five bytes.
abbrev answering : Device
answering = record {
  State = ℕ;
  op = λ t cmd h. record {
    state = t;
    failure = none;
    command = cmd;
    heap =
        if cmd.code == 1
        then place cmd.data_addr (Types.platform_status.to_bytes info) h
        else if cmd.code == 5
        then place 4096 (Csv.certificate.to_bytes (certificate Usages.pdh)) (
            place 8192
              (certificates.to_bytes
                (certificate Usages.pek, (certificate Usages.oca, certificate Usages.cek)))
              h)
        else place cmd.data_addr (region.to_bytes (record { addr = 128; len = 5 }))
            (place 128 (replicate 64 9) h);
  };
}

-- Errno 5, with the number of the firmware for a bad signature.
abbrev declining : Device
declining = record {
  State = ℕ;
  op = λ t cmd h. record {
    state = t;
    failure = some (os 5);
    command = record cmd { error = 9 };
    heap = h;
  };
}

platform_status-answered_example : platform_status answering places empty_heap 0 ≡ (
  0,
  ok (record {
    build = record { version = record { major = 1; minor = 3 }; build = 7 };
    state = working;
    flags = 1;
    guests = 4;
  }),
)
unfolding command place
platform_status-answered_example =
    platform_status-answered answering places empty_heap info (ok working) 0
      ((omega arith, omega arith), (omega arith, (omega arith, (omega arith, omega arith))))
      two_working refl refl

platform-refused_example :
    let report = known (io_error (os 5)) in
    ((platform_reset declining places empty_heap 0).1 ≡ err report)
    × ((platform_status declining places empty_heap 0).1 ≡ err report)
    × ((pek_generate declining places empty_heap 0).1 ≡ err report)
    × ((pek_csr declining places empty_heap 0).1 ≡ err report)
    × ((pdh_generate declining places empty_heap 0).1 ≡ err report)
    × ((pdh_cert_export declining places empty_heap 0).1 ≡ err report)
    × ((pek_cert_import declining places empty_heap
          (certificate Usages.pek)
          (certificate Usages.oca)
          0).1
        ≡ err report)
    × ((get_identifier declining places empty_heap 0).1 ≡ err report)
platform-refused_example =
    platform-refused declining places empty_heap (os 5) (λ t cmd h. refl) (certificate Usages.pek)
      (certificate Usages.oca) 0

pdh_cert_export-answered_example : pdh_cert_export answering places empty_heap 0 ≡ (
  0,
  ok (record {
    pdh = certificate Usages.pdh;
    pek = certificate Usages.pek;
    oca = certificate Usages.oca;
    cek = certificate Usages.cek;
  }),
)
unfolding command place
pdh_cert_export-answered_example =
    pdh_cert_export-answered answering places empty_heap (certificate Usages.pdh)
      (certificate Usages.pek) (certificate Usages.oca) (certificate Usages.cek) 0
      (
        certificate-IsCertificate Usages.pdh (omega arith),
        (
          certificate-IsCertificate Usages.pek (omega arith),
          (
            certificate-IsCertificate Usages.oca (omega arith),
            certificate-IsCertificate Usages.cek (omega arith),
          ),
        ),
      )
      refl refl refl

abbrev written : Bytes
written = replicate 64 9

apart : Apart places
apart = record {
  first = λ h. omega (arith, h);
  second = λ h. omega (arith, h);
  third = λ h. omega (arith, h);
  pek_fits = omega arith;
  oca_fits = omega arith;
}

pek_cert_import-Imported_example :
    let pek = certificate Usages.pek in
    let oca = certificate Usages.oca in
    let after =
      pek_cert_import
        (watching answering)
        places
        empty_heap
        pek
        oca
        (record { state = 0; commands = [] }) in
    (cmd : Command) × (seen : Heap) × (after.0.commands ≡ (cmd, seen) ∷ [])
    × Imported cmd seen pek oca
    × ((after.1 ≡ ok tt) ↔ ((answering.op 0 cmd seen).failure ≡ none))
pek_cert_import-Imported_example =
    pek_cert_import-Imported answering places empty_heap (certificate Usages.pek)
      (certificate Usages.oca) (record { state = 0; commands = [] })
      (certificate-IsCertificate Usages.pek (omega arith))
      (certificate-IsCertificate Usages.oca (omega arith)) apart
