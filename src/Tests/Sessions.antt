-- ===== src/Tests/Sessions.antt =====
-- The properties of the secure channel, at the samples.
use csv_rs.Base.{ℕ, ◌%◌, ◌^◌, ◌++◌, ◌∷◌, ◌≡◌, refl, arith, ok, [], length, replicate}
use csv_rs.Version.{Build}
use csv_rs.Util.Memory.{le_bytes}
use csv_rs.Crypto.Encrypt.{xor_bytes}
use csv_rs.Api.Launch.Secret.{Secret, Measurement}
use csv_rs.Session.Channel.{Session, Initialized, initialized}
use csv_rs.Session.Attest as Attest
use csv_rs.Session.Steps.{
  begun, Steps, none_yet, one_more, update_data, measure, held_by, steps-Measures, held, Measures,
  all_added, measuring, verify-mock_verify, secret-opens,
}
use csv_rs.Api.Launch.Launcher as Launching
use csv_rs.Api.Launch.Command.{Command, Heap}
use csv_rs.Api.Launch.Watch.{Seen, watching}
use csv_rs.Session.Inject.{SecretApart, Injected, inject-secret}
use csv_rs.Tests.Kernels.{places, empty_heap, accepting, measured_launcher}
use csv_rs.Tests.Toy.{sum_hash}
use csv_rs.Tests.Symm.{symm, symm-laws}
use csv_rs.Tests.Samples.{uid}
use csv_rs.Tests.Tenant.{tenant}

abbrev build : Build
build = record { version = record { major = 1; minor = 2 }; build = 3 }

abbrev measured : Session (Attest.Measuring symm)
measured = record {
  policy = tenant.policy;
  tek = tenant.tek;
  tik = tenant.tik;
  state = record { hash = 1 ∷ 2 ∷ [] };
}

abbrev answer : Measurement
answer = record { measure = replicate 32 6; mnonce = replicate 16 7 }

abbrev done : Session (Attest.Verified symm)
done = record {
  policy = tenant.policy;
  tek = tenant.tek;
  tik = tenant.tik;
  state = record { measurement = answer };
}

steps : Steps symm (begun tenant) (measuring measured)
unfolding Attest.measure Attest.update_data Attest.verify_measured Attest.verify
steps =
    one_more
      (one_more none_yet (measure {t = record measured { state = record { hash = [] } }} refl))
      (update_data {t = measured} (1 ∷ 2 ∷ []) refl)

steps-Measures_example :
    (held_by symm (measuring measured) ≡ held symm tenant)
    × Measures symm (all_added symm steps) (measuring measured)
steps-Measures_example = steps-Measures symm tenant steps

verify-mock_verify_example :
    let before : Session Initialized = record {
      policy = measured.policy;
      tek = measured.tek;
      tik = measured.tik;
      state = initialized;
    } in
    let skipped = Attest.mock_verify symm before answer in
    (Attest.verify_measured symm measured build answer ≡ skipped)
    × (Attest.verify_with_digest symm measured build answer uid ≡ skipped)
    × (Attest.verify symm before uid build answer ≡ skipped)
verify-mock_verify_example =
    verify-mock_verify symm measured (sum_hash (1 ∷ 2 ∷ [])) uid build answer refl

secret-opens_example :
    (s : Secret) × (Attest.secret symm done 0 uid ≡ ok s)
    × (s.header.flags ≡ 0)
    × (s.header.iv ≡ replicate 16 5)
    × (length s.ciphertext ≡ length uid)
    × (xor_bytes (symm-laws.stream done.tek s.header.iv (length uid)) s.ciphertext ≡ uid)
    × (s.header.mac
        ≡ symm-laws.mac done.tik (
            (1 ∷ [])
            ++ le_bytes 4 0
            ++ replicate 16 5
            ++ le_bytes 4 (length uid % 2 ^ 32)
            ++ le_bytes 4 (length s.ciphertext % 2 ^ 32)
            ++ s.ciphertext
            ++ done.state.measurement.measure))
unfolding replicate
secret-opens_example = secret-opens symm symm-laws done 0 uid (replicate 16 5) refl refl refl

apart : SecretApart places
apart = record {
  first = λ h. omega (arith, h);
  second = λ h. omega (arith, h);
  third = λ h. omega (arith, h);
  header_fits = omega arith;
  ciphertext_fits = omega arith;
}

abbrev unseen : Seen ℕ
unseen = record { state = 0; commands = []; regions = [] }

inject-secret_example :
    (packet : Secret) × (cmd : Command) × (seen : Heap) × (Attest.secret symm done 0 uid
      ≡ ok packet)
    × ((Launching.inject
          (watching accepting)
          places
          empty_heap
          measured_launcher
          packet
          65536
          unseen).0.commands
        ≡ (cmd, seen) ∷ [])
    × (injected : Injected cmd seen measured_launcher.csv 65536 packet) × (xor_bytes
          (symm-laws.stream done.tek packet.header.iv (length uid))
          (seen injected.sub.trans_addr)
        ≡ uid)
unfolding replicate
inject-secret_example =
    inject-secret accepting places empty_heap symm symm-laws done 0 uid (replicate 16 5)
      measured_launcher 65536 unseen refl refl refl (omega arith) (omega arith) apart
