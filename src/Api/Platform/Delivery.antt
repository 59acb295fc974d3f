-- ===== src/Api/Platform/Delivery.antt =====
-- src/api/platform/mod.rs: what the device is asked for, and what an import hands over.
use csv_rs.Base.{
  ◌%◌, ◌^◌, ◌<◌, ◌≡◌, ◌≢◌, ◌↔◌, refl, sym, ap, ◌∙◌, arith, List, ◌∷◌, length, Option, some, none,
  ◌>>=◌, Outcome, ok,
}
use csv_rs.Error.{IoError, Indeterminate}
use csv_rs.Util.Heap.{place_here, place_elsewhere}
use csv_rs.Version.{version}
use csv_rs.Crypto.Ecc
use csv_rs.Crypto.Ecdsa
use csv_rs.Certs.Csv.Data as Csv
use csv_rs.Api.Platform.Types.{
  PekCertImport, pek_cert_import-IsFaithful, pek_cert_import_new, region,
}
use csv_rs.Api.Platform.Types as Types
use csv_rs.Api.Platform.Command.{
  Command, Heap, place, Device, command, issue, answered, pek_cert_import_id,
}
use csv_rs.Api.Platform.Firmware as Firmware
use csv_rs.Api.Platform.Firmware.{Places}

-- A device's state, with the commands that came and the memory that each came with, the latest in front.
pub record Seen (State : Type 0) : Type 0 where
  pub state : State
  pub commands : List (Command × Heap)

abbrev pub watching : Device → Device
watching d = record {
  State = Seen d.State;
  op = λ s cmd heap.
      let r = d.op s.state cmd heap in
      record {
        state = record { state = r.state; commands = (cmd, heap) ∷ s.commands };
        failure = r.failure;
        command = r.command;
        heap = r.heap;
      };
}

-- The objects of an import stand at different places.
pub record Apart (at : Places) : Type 0 where
  pub first : at.pek ≢ at.subcommand
  pub second : at.oca ≢ at.subcommand
  pub third : at.oca ≢ at.pek
  pub pek_fits : at.pek < 256 ^ 8
  pub oca_fits : at.oca < 256 ^ 8

-- A command that imports two certificates: at the place that it names stands a subcommand with the places
-- and lengths of the two.
pub record Imported (cmd : Command) (seen : Heap) (pek oca : Csv.Certificate) : Type 0 where
  pub id : cmd.code ≡ 6
  pub no_error : cmd.error ≡ 0
  pub sub : PekCertImport
  pub reads : Types.pek_cert_import.of_bytes (seen cmd.data_addr) ≡ sub
  pub same_pek : seen sub.pek.addr ≡ Csv.certificate.to_bytes pek
  pub pek_len : length (seen sub.pek.addr) ≡ sub.pek.len
  pub same_oca : seen sub.oca.addr ≡ Csv.certificate.to_bytes oca
  pub oca_len : length (seen sub.oca.addr) ≡ sub.oca.len

certificate-short : Csv.certificate.size % 2 ^ 32 ≡ Csv.certificate.size
unfolding Csv.certificate Csv.body Csv.signatures Csv.info Ecdsa.signature version Csv.pub_key
    Ecc.pub_key
certificate-short = refl

-- A command is answered with success exactly if the device does not refuse it.
accepted_iff :
    (failure : Option IoError) (after : Heap)
    → Path (Outcome Indeterminate (Unit {0})) (answered failure after >>= λ _. ok tt) (ok tt)
      ↔ (failure ≡ none)
unfolding answered
accepted_iff none after = (λ _. refl, λ _. refl)
accepted_iff (some e) after = (λ h. cc, λ h. cc)

module _ (d : Device) (at : Places) (heap : Heap) where
  -- Importing two certificates of the Rust type, their objects at places apart: the device sees one command
  -- more, that hands over the two; and the import succeeds exactly if the device does not refuse it.
  pub pek_cert_import-Imported :
      (pek oca : Csv.Certificate) (s : Seen d.State)
      → Csv.IsCertificate pek
      → Csv.IsCertificate oca
      → Apart at
      → let after = Firmware.pek_cert_import (watching d) at heap pek oca s in
        (cmd : Command) × (seen : Heap) × (after.0.commands ≡ (cmd, seen) ∷ s.commands)
        × Imported cmd seen pek oca
        × ((after.1 ≡ ok tt) ↔ ((d.op s.state cmd seen).failure ≡ none))
  unfolding Firmware.pek_cert_import issue answered command pek_cert_import_new
  pek_cert_import-Imported pek oca s fits_pek fits_oca apart =
      let sub = pek_cert_import_new at.pek at.oca in
      let below = place at.oca (Csv.certificate.to_bytes oca) heap in
      let under = place at.pek (Csv.certificate.to_bytes pek) below in
      let seen = place at.subcommand (Types.pek_cert_import.to_bytes sub) under in
      let pek_there : seen at.pek ≡ Csv.certificate.to_bytes pek =
        place_elsewhere at.subcommand at.pek _ under apart.first ∙ place_here at.pek _ below in
      let oca_there : seen at.oca ≡ Csv.certificate.to_bytes oca =
        place_elsewhere at.subcommand at.oca _ under apart.second
        ∙ place_elsewhere at.pek at.oca _ below apart.third
        ∙ place_here at.oca _ heap in
      (
        command pek_cert_import_id at.subcommand,
        seen,
        refl,
        record {
          id = refl;
          no_error = refl;
          sub = sub;
          reads =
              ap Types.pek_cert_import.of_bytes (place_here at.subcommand _ under)
              ∙ pek_cert_import-IsFaithful.of_bytes-to_bytes sub
                  ((apart.pek_fits, omega arith), (apart.oca_fits, omega arith));
          same_pek = pek_there;
          pek_len =
              ap length pek_there
              ∙ (Csv.certificate-IsFaithful.to_bytes-IsArray pek fits_pek).size
              ∙ sym certificate-short;
          same_oca = oca_there;
          oca_len =
              ap length oca_there
              ∙ (Csv.certificate-IsFaithful.to_bytes-IsArray oca fits_oca).size
              ∙ sym certificate-short;
        },
        accepted_iff (d.op s.state (command pek_cert_import_id at.subcommand) seen).failure _,
      )
