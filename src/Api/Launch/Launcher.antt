-- ===== src/Api/Launch/Launcher.antt =====
-- src/api/launch/mod.rs: the launch of a guest, by the type states of its launcher.
use csv_rs.Base.{ℕ, Bytes, Outcome, ok}
use csv_rs.Error.{IoError}
use csv_rs.Certs.Csv.Data as Csv
use csv_rs.Api.Launch.Policy.{Policy}
use csv_rs.Api.Launch.Session as Sessions
use csv_rs.Api.Launch.Secret as Secrets
use csv_rs.Api.Launch.Secret.{Secret, Measurement, AttestationReport}
use csv_rs.Api.Launch.Types.{
  Handle, LaunchStart, no_bytes, start_new, with_policy_only, update_data_new, secret_new,
  measure_new, attestation_new, launch_start, region, launch_secret, attestation,
}
use csv_rs.Api.Launch.Id
use csv_rs.Api.Launch.Command.{command, enc_region, Heap, place, Kernel, issue, register, and_then}

-- Type states
pub data New : Type 0 where
  new_launch : New

pub record Started : Type 0 where
  pub handle : Handle

pub record Measured : Type 0 where
  pub handle : Handle
  pub measured : Measurement

pub record Launcher (T : Type 0) : Type 0 where
  pub state : T
  pub vm_fd : ℕ
  pub csv : ℕ

-- Where the objects of a call stand in the memory of the process.
pub record Places : Type 0 where
  pub subcommand : ℕ
  pub certificate : ℕ
  pub session : ℕ
  pub header : ℕ
  pub ciphertext : ℕ
  pub measurement : ℕ
  pub report : ℕ

-- A slice of memory and the place where it stands.
pub record Slice : Type 0 where
  pub addr : ℕ
  pub bytes : Bytes

module _ (k : Kernel) (at : Places) (heap : Heap) where
  -- What a call does to the kernel, and what it returns.
  abbrev pub Run : Type 0 → Type 0
  Run A = k.State → k.State × Outcome IoError A

  -- A command without a subcommand of its own.
  abbrev plain : ℕ → ℕ → ℕ → Run Heap
  plain id vm_fd csv =
      issue k vm_fd (command id csv at.subcommand) (place at.subcommand no_bytes heap)

  -- `Launcher::as_mut_vmfd`: the descriptor, and the launcher after the caller has put another in its place.
  abbrev pub as_mut_vmfd : {T : Type 0} → Launcher T → ℕ × (ℕ → Launcher T)
  as_mut_vmfd l = (l.vm_fd, λ written. record l { vm_fd = written })

  -- `Launcher<New>::new`
  unfoldable pub new : ℕ → ℕ → Run (Launcher New)
  new kvm csv s =
      and_then (plain Id.init kvm csv s)
        (λ _ s'. (s', ok (record { state = new_launch; vm_fd = kvm; csv = csv })))

  -- `Launcher<New>::new_es`
  unfoldable pub new_es : ℕ → ℕ → Run (Launcher New)
  new_es kvm csv s =
      and_then (plain Id.es_init kvm csv s)
        (λ _ s'. (s', ok (record { state = new_launch; vm_fd = kvm; csv = csv })))

  -- The command with this subcommand, and the launcher with the handle that stands in it afterwards.
  abbrev begin : Launcher New → LaunchStart → Heap → Run (Launcher Started)
  begin self sub given s =
      and_then
        (issue k self.vm_fd (command Id.launch_start self.csv at.subcommand)
          (place at.subcommand (launch_start.to_bytes sub) given) s)
        (λ after s'. (
          s',
          ok (record {
            state = record { handle = (launch_start.of_bytes (after at.subcommand)).handle };
            vm_fd = self.vm_fd;
            csv = self.csv;
          }),
        ))

  -- `Launcher<New>::start_raw`
  unfoldable pub start_raw :
      Launcher New → Policy → Csv.Certificate → Sessions.Session → Run (Launcher Started)
  start_raw self policy cert session = begin self (start_new policy at.certificate at.session) (
      place at.certificate (Csv.certificate.to_bytes cert)
        (place at.session (Sessions.session.to_bytes session) heap))

  -- `Launcher<New>::start`
  unfoldable pub start : Launcher New → Sessions.Start → Run (Launcher Started)
  start self packet = begin self (start_new packet.policy at.certificate at.session) (
      place at.certificate (Csv.certificate.to_bytes packet.cert)
        (place at.session (Sessions.session.to_bytes packet.session) heap))

  -- `Launcher<New>::start_with_policy_only`
  unfoldable pub start_with_policy_only : Launcher New → Policy → Run (Launcher Started)
  start_with_policy_only self policy = begin self (with_policy_only policy) heap

  -- `Launcher<Started>::update_data_without_registration`
  unfoldable pub update_data_without_registration : Launcher Started → Slice → Run (Unit {0})
  update_data_without_registration self added s =
      and_then
        (issue k self.vm_fd (command Id.launch_update_data self.csv at.subcommand)
          (place at.subcommand (region.to_bytes (update_data_new added.addr added.bytes))
            (place added.addr added.bytes heap))
          s)
        (λ _ s'. (s', ok tt))

  -- `Launcher<Started>::register_kvm_enc_region`
  unfoldable pub register_kvm_enc_region : Launcher Started → Slice → Run (Unit {0})
  register_kvm_enc_region self added s = register k self.vm_fd (enc_region added.addr added.bytes) s

  -- `Launcher<Started>::update_data`
  unfoldable pub update_data : Launcher Started → Slice → Run (Unit {0})
  update_data self added s =
      and_then (register k self.vm_fd (enc_region added.addr added.bytes) s) (λ _ s'.
        and_then
          (issue k self.vm_fd (command Id.launch_update_data self.csv at.subcommand)
            (place at.subcommand (region.to_bytes (update_data_new added.addr added.bytes))
              (place added.addr added.bytes heap))
            s')
          (λ _ s''. (s'', ok tt)))

  -- `Launcher<Started>::update_vmsa`
  unfoldable pub update_vmsa : Launcher Started → Run (Unit {0})
  update_vmsa self s =
      and_then (plain Id.launch_update_vmsa self.vm_fd self.csv s) (λ _ s'. (s', ok tt))

  -- `Launcher<Started>::measure`
  unfoldable pub measure : Launcher Started → Run (Launcher Measured)
  measure self s =
      and_then
        (issue k self.vm_fd (command Id.launch_measure self.csv at.subcommand)
          (place at.subcommand (region.to_bytes (measure_new at.measurement)) heap) s)
        (λ after s'. (
          s',
          ok (record {
            state = record {
              handle = self.state.handle;
              measured = Secrets.measurement.of_bytes (after at.measurement);
            };
            vm_fd = self.vm_fd;
            csv = self.csv;
          }),
        ))

  -- `Launcher<Measured>::get_attestation_report`
  unfoldable pub get_attestation_report : Launcher Measured → Bytes → Run AttestationReport
  get_attestation_report self mnonce s =
      and_then
        (issue k self.vm_fd (command Id.attestation self.csv at.subcommand)
          (place at.subcommand (attestation.to_bytes (attestation_new at.report mnonce)) heap) s)
        (λ after s'. (s', ok (Secrets.attestation_report.of_bytes (after at.report))))

  -- `Launcher<Measured>::inject`
  unfoldable pub inject : Launcher Measured → Secret → ℕ → Run (Unit {0})
  inject self secret guest s =
      and_then
        (issue k self.vm_fd (command Id.launch_secret self.csv at.subcommand)
          (place at.subcommand
            (launch_secret.to_bytes (secret_new at.header guest at.ciphertext secret.ciphertext))
            (place at.header (Secrets.header.to_bytes secret.header)
              (place at.ciphertext secret.ciphertext heap)))
          s)
        (λ _ s'. (s', ok tt))

  -- `Launcher<Measured>::finish`
  unfoldable pub finish : Launcher Measured → Run Handle
  finish self s =
      and_then (plain Id.launch_finish self.vm_fd self.csv s) (λ _ s'. (s', ok self.state.handle))

-- `Launcher<Measured>::measurement`
unfoldable pub measurement : Launcher Measured → Measurement
measurement self = self.state.measured
