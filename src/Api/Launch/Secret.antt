-- ===== src/Api/Launch/Secret.antt =====
-- src/api/launch/mod.rs: secrets and their headers, measurements and reports of a launch.
use csv_rs.Base.{ℕ, Bytes, refl, IsArray}
use csv_rs.Util.Memory.{
  Layout, IsFaithful, array, word, fields, structure, array-IsFaithful, fields-IsFaithful,
  structure-IsFaithful,
}
use csv_rs.Api.Launch.Policy.{Policy, policy}

-- `HeaderFlags`
abbrev pub HeaderFlags : Type 0
HeaderFlags = ℕ

abbrev pub compressed : HeaderFlags
compressed = 0b00000001

pub record Header : Type 0 where
  pub flags : HeaderFlags
  pub iv : Bytes
  pub mac : Bytes

pub record Secret : Type 0 where
  pub header : Header
  pub ciphertext : Bytes

pub record Measurement : Type 0 where
  pub measure : Bytes
  pub mnonce : Bytes

-- The nine parts of 16 bytes of the signature stand one behind the other.
pub record AttestationReport : Type 0 where
  pub mnonce : Bytes
  pub digest : Bytes
  pub policy : Policy
  pub sig_usage : Bytes
  pub sig_algo : Bytes
  pub reserved : Bytes
  pub sig1 : Bytes

unfoldable pub header : Layout Header
header =
    structure (fields (word 4) (fields (array 16) (array 32)))
      (λ (f, t). record { flags = f; iv = t.0; mac = t.1 }) (λ h. (h.flags, (h.iv, h.mac)))

unfoldable pub measurement : Layout Measurement
measurement =
    structure (fields (array 32) (array 16)) (λ (d, n). record { measure = d; mnonce = n })
      (λ m. (m.measure, m.mnonce))

unfoldable pub attestation_report : Layout AttestationReport
attestation_report =
    structure
      (fields (array 16) (
        fields (array 32)
          (fields policy (fields (array 4) (fields (array 4) (fields (array 4) (array 144)))))))
      (λ (n, t). record {
        mnonce = n;
        digest = t.0;
        policy = t.1.0;
        sig_usage = t.1.1.0;
        sig_algo = t.1.1.1.0;
        reserved = t.1.1.1.1.0;
        sig1 = t.1.1.1.1.1;
      })
      (λ r. (r.mnonce, (r.digest, (r.policy, (r.sig_usage, (r.sig_algo, (r.reserved, r.sig1)))))))

abbrev pub IsMeasurement : Measurement → Type 0
IsMeasurement m = IsArray 32 m.measure × IsArray 16 m.mnonce

pub measurement-IsFaithful : IsFaithful measurement IsMeasurement
unfolding measurement
measurement-IsFaithful =
    structure-IsFaithful _ _ (fields-IsFaithful (array-IsFaithful 32) (array-IsFaithful 16))
      (λ b. refl) (λ a. refl)
