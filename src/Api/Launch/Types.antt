-- ===== src/Api/Launch/Types.antt =====
-- src/api/launch/types.rs: the subcommands that the kernel reads from memory. The compiler fills up
-- between fields, and behind the last one, to a multiple of eight bytes; that padding is zeros here.
use csv_rs.Base.{ℕ, ◌%◌, ◌^◌, ◌≡◌, refl, Bytes, [], length, replicate, replicate-IsArray}
use csv_rs.Util.Memory.{
  Layout, array, word, IsWord, fields, structure, array-IsFaithful, word-IsFaithful,
  fields-IsFaithful, structure-of_bytes,
}
use csv_rs.Certs.Csv.Data.{certificate}
use csv_rs.Api.Launch.Policy.{Policy, policy, IsPolicy, policy-IsFaithful}
use csv_rs.Api.Launch.Session as Session
use csv_rs.Api.Launch.Secret.{header, measurement, attestation_report}

-- `Handle(u32)`
abbrev pub Handle : Type 0
Handle = ℕ

-- `struct Init`, `EsInit`, `LaunchUpdateVmsa` and `LaunchFinish` have no bytes.
abbrev pub no_bytes : Bytes
no_bytes = []

pub record LaunchStart : Type 0 where
  pub handle : Handle
  pub policy : Policy
  pub dh_addr : ℕ
  pub dh_len : ℕ
  pub session_addr : ℕ
  pub session_len : ℕ

-- A place in memory and a length.
pub record Region : Type 0 where
  pub addr : ℕ
  pub len : ℕ

abbrev pub LaunchUpdateData : Type 0
LaunchUpdateData = Region

abbrev pub LaunchMeasure : Type 0
LaunchMeasure = Region

pub record LaunchSecret : Type 0 where
  pub hdr_addr : ℕ
  pub hdr_len : ℕ
  pub guest_addr : ℕ
  pub guest_len : ℕ
  pub trans_addr : ℕ
  pub trans_len : ℕ

pub record Attestation : Type 0 where
  pub mnonce : Bytes
  pub addr : ℕ
  pub len : ℕ

-- `LaunchStart::new`, of the places of the certificate and of the session.
unfoldable pub start_new : Policy → ℕ → ℕ → LaunchStart
start_new p dh session = record {
  handle = 0;
  policy = p;
  dh_addr = dh;
  dh_len = certificate.size % 2 ^ 32;
  session_addr = session;
  session_len = Session.session.size % 2 ^ 32;
}

-- `LaunchStart::with_policy_only`
unfoldable pub with_policy_only : Policy → LaunchStart
with_policy_only p = record {
  handle = 0;
  policy = p;
  dh_addr = 0;
  dh_len = 0;
  session_addr = 0;
  session_len = 0;
}

-- `LaunchUpdateData::new`: the length goes into 32 bits.
unfoldable pub update_data_new : ℕ → Bytes → LaunchUpdateData
update_data_new addr added = record { addr = addr; len = length added % 2 ^ 32 }

-- `LaunchSecret::new`
unfoldable pub secret_new : ℕ → ℕ → ℕ → Bytes → LaunchSecret
secret_new hdr guest trans_addr trans = record {
  hdr_addr = hdr;
  hdr_len = header.size % 2 ^ 32;
  guest_addr = guest;
  guest_len = length trans % 2 ^ 32;
  trans_addr = trans_addr;
  trans_len = length trans % 2 ^ 32;
}

-- `LaunchMeasure::new`
unfoldable pub measure_new : ℕ → LaunchMeasure
measure_new addr = record { addr = addr; len = measurement.size % 2 ^ 32 }

-- `Attestation::new`
unfoldable pub attestation_new : ℕ → Bytes → Attestation
attestation_new addr mnonce = record {
  mnonce = mnonce;
  addr = addr;
  len = attestation_report.size % 2 ^ 32;
}

abbrev start_made : ℕ × (Policy × (ℕ × (ℕ × (Bytes × (ℕ × (ℕ × Bytes)))))) → LaunchStart
start_made = λ (h, t). record {
  handle = h;
  policy = t.0;
  dh_addr = t.1.0;
  dh_len = t.1.1.0;
  session_addr = t.1.1.1.1.0;
  session_len = t.1.1.1.1.1.0;
}

abbrev start_parts : LaunchStart → ℕ × (Policy × (ℕ × (ℕ × (Bytes × (ℕ × (ℕ × Bytes))))))
start_parts = λ s. (
  s.handle,
  (
    s.policy,
    (s.dh_addr, (s.dh_len, (replicate 4 0, (s.session_addr, (s.session_len, replicate 4 0))))),
  ),
)

unfoldable pub launch_start : Layout LaunchStart
launch_start =
    structure
      (fields (word 4) (
        fields policy (
          fields (word 8)
            (fields (word 4) (fields (array 4) (fields (word 8) (fields (word 4) (array 4))))))))
      start_made start_parts

abbrev region_made : ℕ × (ℕ × Bytes) → Region
region_made = λ (a, t). record { addr = a; len = t.0 }

abbrev region_parts : Region → ℕ × (ℕ × Bytes)
region_parts = λ r. (r.addr, (r.len, replicate 4 0))

unfoldable pub region : Layout Region
region = structure (fields (word 8) (fields (word 4) (array 4))) region_made region_parts

abbrev secret_made : ℕ × (ℕ × (Bytes × (ℕ × (ℕ × (Bytes × (ℕ × (ℕ × Bytes))))))) → LaunchSecret
secret_made = λ (a, t). record {
  hdr_addr = a;
  hdr_len = t.0;
  guest_addr = t.1.1.0;
  guest_len = t.1.1.1.0;
  trans_addr = t.1.1.1.1.1.0;
  trans_len = t.1.1.1.1.1.1.0;
}

abbrev secret_parts : LaunchSecret → ℕ × (ℕ × (Bytes × (ℕ × (ℕ × (Bytes × (ℕ × (ℕ × Bytes)))))))
secret_parts = λ s. (
  s.hdr_addr,
  (
    s.hdr_len,
    (
      replicate 4 0,
      (s.guest_addr, (s.guest_len, (replicate 4 0, (s.trans_addr, (s.trans_len, replicate 4 0))))),
    ),
  ),
)

unfoldable pub launch_secret : Layout LaunchSecret
launch_secret =
    structure
      (fields (word 8) (
        fields (word 4) (
          fields (array 4) (
            fields (word 8)
              (fields (word 4) (fields (array 4) (fields (word 8) (fields (word 4) (array 4)))))))))
      secret_made secret_parts

unfoldable pub attestation : Layout Attestation
attestation =
    structure (fields (array 16) (fields (word 8) (fields (word 4) (array 4))))
      (λ (n, t). record { mnonce = n; addr = t.0; len = t.1.0 })
      (λ a. (a.mnonce, (a.addr, (a.len, replicate 4 0))))

-- What the kernel reads of a subcommand is the subcommand.
pub launch_start-of_bytes :
    (s : LaunchStart)
    → (IsWord 4 s.handle
        × (IsPolicy s.policy
            × (IsWord 8 s.dh_addr
                × (IsWord 4 s.dh_len × (IsWord 8 s.session_addr × IsWord 4 s.session_len)))))
    → launch_start.of_bytes (launch_start.to_bytes s) ≡ s
unfolding launch_start
launch_start-of_bytes s (h, (p, (a, (b, (c, d))))) =
    structure-of_bytes start_made start_parts
      (fields-IsFaithful (word-IsFaithful 4) (
        fields-IsFaithful policy-IsFaithful (
          fields-IsFaithful (word-IsFaithful 8) (
            fields-IsFaithful (word-IsFaithful 4) (
              fields-IsFaithful (array-IsFaithful 4) (
                fields-IsFaithful (word-IsFaithful 8)
                  (fields-IsFaithful (word-IsFaithful 4) (array-IsFaithful 4))))))))
      s (h, (p, (a, (b, (replicate-IsArray 4, (c, (d, replicate-IsArray 4))))))) refl

pub region-of_bytes :
    (r : Region) → IsWord 8 r.addr → IsWord 4 r.len → region.of_bytes (region.to_bytes r) ≡ r
unfolding region
region-of_bytes r a b =
    structure-of_bytes region_made region_parts
      (fields-IsFaithful (word-IsFaithful 8)
        (fields-IsFaithful (word-IsFaithful 4) (array-IsFaithful 4)))
      r (a, (b, replicate-IsArray 4)) refl

pub launch_secret-of_bytes :
    (s : LaunchSecret)
    → (IsWord 8 s.hdr_addr
        × (IsWord 4 s.hdr_len
            × (IsWord 8 s.guest_addr
                × (IsWord 4 s.guest_len × (IsWord 8 s.trans_addr × IsWord 4 s.trans_len)))))
    → launch_secret.of_bytes (launch_secret.to_bytes s) ≡ s
unfolding launch_secret
launch_secret-of_bytes s (a, (b, (c, (d, (e, f))))) =
    structure-of_bytes secret_made secret_parts
      (fields-IsFaithful (word-IsFaithful 8) (
        fields-IsFaithful (word-IsFaithful 4) (
          fields-IsFaithful (array-IsFaithful 4) (
            fields-IsFaithful (word-IsFaithful 8) (
              fields-IsFaithful (word-IsFaithful 4) (
                fields-IsFaithful (array-IsFaithful 4) (
                  fields-IsFaithful (word-IsFaithful 8)
                    (fields-IsFaithful (word-IsFaithful 4) (array-IsFaithful 4)))))))))
      s
      (
        a,
        (b, (replicate-IsArray 4, (c, (d, (replicate-IsArray 4, (e, (f, replicate-IsArray 4))))))),
      )
      refl
