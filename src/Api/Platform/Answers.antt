-- ===== src/Api/Platform/Answers.antt =====
-- src/api/platform/mod.rs: what the operations make of the device's answers.
use csv_rs.Base.{
  ℕ, ◌≤◌, ◌≡◌, refl, arith, Bytes, length, take, some, none, Outcome, ok, err, ◌>>=◌, replicate,
  length-take, le→leb,
}
use csv_rs.Error.{IoError, Indeterminate, known, io_error, indeterminate}
use csv_rs.Util.Memory.{IsWord}
use csv_rs.Certs.Csv.Data as Csv
use csv_rs.Api.Platform.Types as Types
use csv_rs.Api.Platform.Types.{
  State, uninitialized, initialized, working, Status, PlatformStatus, no_status, IsPlatformStatus,
  platform_status-IsFaithful, region, region-IsFaithful, get_id_new, certificates,
  certificates-of_bytes, pdh_cert_export_new, as_slice,
}
use csv_rs.Api.Platform.Command.{
  Heap, place, Device, command, issue, answered, Command, platform_status_id, pdh_cert_export_id,
  get_id_id,
}
use csv_rs.Api.Platform.Firmware.{
  Places, status_of, state_of, platform_reset, platform_status, pek_generate, pek_csr, pdh_generate,
  pdh_cert_export, pek_cert_import, get_identifier,
}

-- What the number of a state stands for; from 3 on, for none.
pub data Named : ℕ → Outcome Indeterminate State → Type 0 where
  zero_uninitialized : Named 0 (ok uninitialized)
  one_initialized : Named 1 (ok initialized)
  two_working : Named 2 (ok working)
  unnamed : {n : ℕ} → 3 ≤ n → Named n (err indeterminate)

state_of-Named : {n : ℕ} {found : Outcome Indeterminate State} → Named n found → state_of n ≡ found
unfolding state_of
state_of-Named zero_uninitialized = refl
state_of-Named one_initialized = refl
state_of-Named two_working = refl
state_of-Named (unnamed {n} h) = ground (arith, h)

module _ (d : Device) (at : Places) (heap : Heap) where
  -- A device that answers with the bytes of a status: the call gives just that status, with the state that
  -- its number stands for, or, where that is 3 or more, an error of no known kind.
  pub platform_status-answered :
      (info : PlatformStatus) (found : Outcome Indeterminate State) (s : d.State)
      → let reply =
          d.op s
            (command platform_status_id at.subcommand)
            (place at.subcommand (Types.platform_status.to_bytes no_status) heap) in
        IsPlatformStatus info
        → Named info.state found
        → reply.failure ≡ none
        → reply.heap at.subcommand ≡ Types.platform_status.to_bytes info
        → platform_status d at heap s ≡ (
          reply.state,
          (found >>= λ st. ok (record {
            build = record { version = info.version; build = info.build };
            state = st;
            flags = info.flags;
            guests = info.guest_count;
          })),
        )
  unfolding platform_status issue answered status_of
  platform_status-answered info found s fits named accepts writes =
      rw
        (
          accepts,
          writes,
          platform_status-IsFaithful.of_bytes-to_bytes info fits,
          state_of-Named named,
        )
        refl

  -- A device that refuses with an errno: whatever error number of the firmware it gives, every operation
  -- fails with the error of the system, and the number is lost.
  pub platform-refused :
      (e : IoError)
      → ((t : d.State) (cmd : Command) (h : Heap) → (d.op t cmd h).failure ≡ some e)
      → (pek oca : Csv.Certificate) (s : d.State)
      → let report = known (io_error e) in
        ((platform_reset d at heap s).1 ≡ err report)
        × ((platform_status d at heap s).1 ≡ err report)
        × ((pek_generate d at heap s).1 ≡ err report)
        × ((pek_csr d at heap s).1 ≡ err report)
        × ((pdh_generate d at heap s).1 ≡ err report)
        × ((pdh_cert_export d at heap s).1 ≡ err report)
        × ((pek_cert_import d at heap pek oca s).1 ≡ err report)
        × ((get_identifier d at heap s).1 ≡ err report)
  unfolding platform_reset platform_status pek_generate pek_csr pdh_generate pdh_cert_export
      pek_cert_import get_identifier issue answered
  platform-refused e refuses pek oca s = (
    rw (refuses),
    rw (refuses),
    rw (refuses),
    rw (refuses),
    rw (refuses),
    rw (refuses),
    rw (refuses),
    rw (refuses),
  )

  -- A device that leaves a PDH certificate at its place, and those of the platform, the owner and the
  -- chip one behind the other at theirs: the chain has each in its place.
  pub pdh_cert_export-answered :
      (pdh pek oca cek : Csv.Certificate) (s : d.State)
      → let reply = d.op s (command pdh_cert_export_id at.subcommand) (
          place at.subcommand
            (Types.pdh_cert_export.to_bytes (pdh_cert_export_new at.pdh at.chain))
            heap) in
        Csv.IsCertificate pdh
          × (Csv.IsCertificate pek × (Csv.IsCertificate oca × Csv.IsCertificate cek))
        → reply.failure ≡ none
        → reply.heap at.pdh ≡ Csv.certificate.to_bytes pdh
        → reply.heap at.chain ≡ certificates.to_bytes (pek, (oca, cek))
        → pdh_cert_export d at heap s
          ≡ (reply.state, ok (record { pdh = pdh; pek = pek; oca = oca; cek = cek }))
  unfolding pdh_cert_export issue answered
  pdh_cert_export-answered pdh pek oca cek s (fits_pdh, fits) accepts first rest =
      rw
        (
          accepts,
          first,
          rest,
          Csv.certificate-IsFaithful.of_bytes-to_bytes pdh fits_pdh,
          certificates-of_bytes (pek, (oca, cek)) fits,
        )
        refl

  -- A device that leaves a length and at least as many bytes at the place for the identifier: the
  -- identifier is just so many of these bytes.
  get_identifier-answered :
      (n : ℕ) (given : Bytes) (s : d.State)
      → let reply = d.op s (command get_id_id at.subcommand) (
          place at.subcommand
            (region.to_bytes (get_id_new at.id))
            (place at.id (replicate 64 0) heap)) in
        n ≤ length given
        → IsWord 4 n
        → IsWord 8 at.id
        → reply.failure ≡ none
        → reply.heap at.subcommand ≡ region.to_bytes (record { addr = at.id; len = n })
        → reply.heap at.id ≡ given
        → (get_identifier d at heap s ≡ (reply.state, ok (take n given)))
          × (length (take n given) ≡ n)
  unfolding get_identifier issue answered as_slice
  get_identifier-answered n given s enough word place_fits accepts writes filled = (
    rw (
      accepts,
      writes,
      region-IsFaithful.of_bytes-to_bytes (record { addr = at.id; len = n }) (place_fits, word),
      filled,
      le→leb n (length given) enough,
    ),
    omega (arith, length-take n given, enough),
  )
