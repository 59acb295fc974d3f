-- ===== src/Api/Platform/Firmware.antt =====
-- src/api/platform/mod.rs: the operations of the platform's firmware.
use csv_rs.Base.{ℕ, Outcome, ok, err, ◌>>=◌, replicate, ◌==◌, if◌then◌else◌}
use csv_rs.Error.{Indeterminate, indeterminate}
use csv_rs.Certs.Csv.Data as Csv
use csv_rs.Certs.Csv.Chain as CsvChain
use csv_rs.Api.Platform.Types as Types
use csv_rs.Api.Platform.Types.{
  State, uninitialized, initialized, working, Status, PlatformStatus, no_status, region,
  pek_csr_new, pek_cert_import_new, pdh_cert_export_new, certificates, get_id_new, as_slice,
}
use csv_rs.Api.Platform.Command.{
  Heap, place, Device, command, issue, platform_reset_id, platform_status_id, pek_gen_id,
  pek_csr_id, pdh_gen_id, pdh_cert_export_id, pek_cert_import_id, get_id_id,
}
use csv_rs.Api.Platform.Identifier.{Identifier}

-- Where the objects of a call stand in the memory of the process.
pub record Places : Type 0 where
  pub subcommand : ℕ
  pub pdh : ℕ
  pub chain : ℕ
  pub pek : ℕ
  pub oca : ℕ
  pub id : ℕ

-- `match info.state`
unfoldable pub state_of : ℕ → Outcome Indeterminate State
state_of n =
    if n == 0
    then ok uninitialized
    else if n == 1
    then ok initialized
    else if n == 2
    then ok working
    else err indeterminate

-- `Status { .. }` of what the device has written.
unfoldable pub status_of : PlatformStatus → Outcome Indeterminate Status
unfolding state_of
status_of info = do
  state ← state_of info.state
  ok (record {
    build = record { version = info.version; build = info.build };
    state = state;
    flags = info.flags;
    guests = info.guest_count;
  })

module _ (d : Device) (at : Places) (heap : Heap) where
  -- What a call does to the device, and what it returns.
  abbrev pub Run : Type 0 → Type 0
  Run A = d.State → d.State × Outcome Indeterminate A

  -- The answer to a command, put to use.
  abbrev ask : {A : Type 0} → ℕ → Heap → (Heap → Outcome Indeterminate A) → Run A
  ask id given use_it s =
      let r = issue d (command id at.subcommand) given s in (r.0, r.1 >>= use_it)

  -- `Firmware::platform_reset`
  unfoldable pub platform_reset : Run (Unit {0})
  platform_reset = ask platform_reset_id heap (λ _. ok tt)

  -- `Firmware::platform_status`
  unfoldable pub platform_status : Run Status
  platform_status =
      ask platform_status_id (place at.subcommand (Types.platform_status.to_bytes no_status) heap)
        (λ after. status_of (Types.platform_status.of_bytes (after at.subcommand)))

  -- `Firmware::pek_generate`
  unfoldable pub pek_generate : Run (Unit {0})
  pek_generate = ask pek_gen_id heap (λ _. ok tt)

  -- `Firmware::pek_csr`
  unfoldable pub pek_csr : Run Csv.Certificate
  pek_csr =
      ask pek_csr_id (place at.subcommand (region.to_bytes (pek_csr_new at.pek)) heap)
        (λ after. ok (Csv.certificate.of_bytes (after at.pek)))

  -- `Firmware::pdh_generate`
  unfoldable pub pdh_generate : Run (Unit {0})
  pdh_generate = ask pdh_gen_id heap (λ _. ok tt)

  -- `Firmware::pdh_cert_export`
  unfoldable pub pdh_cert_export : Run CsvChain.Chain
  pdh_cert_export =
      ask pdh_cert_export_id
        (place at.subcommand (Types.pdh_cert_export.to_bytes (pdh_cert_export_new at.pdh at.chain))
          heap)
        (λ after.
          let (first, (second, third)) = certificates.of_bytes (after at.chain) in
          ok (record {
            pdh = Csv.certificate.of_bytes (after at.pdh);
            pek = first;
            oca = second;
            cek = third;
          }))

  -- `Firmware::pek_cert_import`
  unfoldable pub pek_cert_import : Csv.Certificate → Csv.Certificate → Run (Unit {0})
  pek_cert_import pek oca =
      ask pek_cert_import_id
        (place at.subcommand (Types.pek_cert_import.to_bytes (pek_cert_import_new at.pek at.oca)) (
          place at.pek (Csv.certificate.to_bytes pek)
            (place at.oca (Csv.certificate.to_bytes oca) heap)))
        (λ _. ok tt)

  -- `Firmware::get_identifier`
  unfoldable pub get_identifier : Run Identifier
  get_identifier =
      ask get_id_id
        (place at.subcommand (region.to_bytes (get_id_new at.id))
          (place at.id (replicate 64 0) heap))
        (λ after. as_slice (region.of_bytes (after at.subcommand)) after)
