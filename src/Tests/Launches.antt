-- ===== src/Tests/Launches.antt =====
-- The properties of launches and of error codes, at the samples.
use csv_rs.Base.{◌%◌, ◌/◌, arith, [], ◌++◌, ◌≡◌, ◌↔◌, refl, append-nil, some, ok, replicate, ◌<◌}
use csv_rs.Error.{
  Error, IoError, of_kind, invalid_data, from_code, known, indeterminate, discriminant,
}
use csv_rs.Error as Errors
use csv_rs.Error.Laws.{from_code-iff-discriminant}
use csv_rs.Util
use csv_rs.Crypto.Sm2
use csv_rs.Crypto.Ecc.{group_nid}
use csv_rs.Certs.Usage as Usages
use csv_rs.Certs.Usage.{usage_algorithm, algorithm_digest, sm3}
use csv_rs.Certs.Csv.Cert.{no_signature, generate, generate_body, generate_key, chosen_uid}
use csv_rs.Util.Memory.{le_value}
use csv_rs.Api.Launch.Policy.{of_u32, bytes, of_u32-bytes}
use csv_rs.Api.Launch.Session.{start, start-IsFaithful, decode, encode}
use csv_rs.Api.Launch.SessionLaws.{decode-iff-encode}
use csv_rs.Api.Launch.SessionSign.{Signs, verify-sign_session}
use csv_rs.Tests.Toy.{numbers, numbers-laws, curve, curve-laws, curve-der}
use csv_rs.Tests.Samples.{blank, policy, packet, packet-IsStart, uid, certificate_dh, private_key}

decode-iff-encode_example : decode (start.to_bytes packet ++ []) ≡ ok (packet, [])
unfolding encode Util.save
decode-iff-encode_example =
    (decode-iff-encode (start.to_bytes packet ++ []) packet [] (
        rw (append-nil (start.to_bytes packet))
          (start-IsFaithful.to_bytes-IsArray packet packet-IsStart).bytes)).1
      (start.to_bytes packet, refl, refl, packet-IsStart)

verify-sign_session_example :
    Signs numbers curve numbers-laws curve-laws curve-der certificate_dh
      (record private_key { usage = Usages.pdh })
      blank
      uid
      0
unfolding generate generate_body generate_key chosen_uid Sm2.generate group_nid usage_algorithm
    algorithm_digest replicate no_signature
verify-sign_session_example =
    verify-sign_session numbers curve numbers-laws curve-laws curve-der (some uid) uid 5 0
      certificate_dh (record private_key { usage = Usages.pdh }) (replicate 32 5, replicate 32 7)
      blank refl (omega arith) refl refl refl

of_u32-bytes_example :
    (of_u32 (le_value (bytes policy))
      ≡ record { flags = 5 % 64; minfw = record { major = 0x21 / 16; minor = 0x21 % 16 } })
    × (5 < 64
        → (of_u32 (le_value (bytes policy)) ≡ policy)
          ↔ (policy.minfw ≡ record { major = 0; minor = 0 }))
of_u32-bytes_example = of_u32-bytes policy (omega arith, (omega arith, omega arith))

from_code-iff-discriminant_example :
    (from_code (of_kind invalid_data) 0x02 ≡ known Errors.invalid_guest_state)
    ↔ (discriminant Errors.invalid_guest_state ≡ 0x02)
from_code-iff-discriminant_example =
    from_code-iff-discriminant (of_kind invalid_data) 0x02 Errors.invalid_guest_state tt
