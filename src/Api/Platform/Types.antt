-- ===== src/Api/Platform/Types.antt =====
-- src/api/platform/types.rs: the subcommands of the platform's device, packed.
use csv_rs.Base.{
  ℕ, ◌*◌, ◌%◌, ◌^◌, if◌then◌else◌, Bytes, String, ◌≡◌, refl, Outcome, ok, panicked, leb, length,
  take,
}
use csv_rs.Util.Heap.{Heap}
use csv_rs.Error.{Indeterminate}
use csv_rs.Version.{Version, Build, version, IsVersion, version-IsFaithful}
use csv_rs.Util.Memory.{
  Layout, IsFaithful, word, IsWord, fields, structure, word-IsFaithful, fields-IsFaithful,
  structure-IsFaithful,
}
use csv_rs.Certs.Csv.Data.{Certificate, certificate, IsCertificate, certificate-IsFaithful}

-- `PlatformStatusFlags`
abbrev pub owned : ℕ
owned = 0b1

abbrev pub encrypted_state : ℕ
encrypted_state = 0b100000000

pub data State : Type 0 where
  uninitialized initialized working : State

-- `Display for State`
unfoldable pub display : State → String
display uninitialized = "uninitialized"
display initialized = "initialized"
display working = "working"

pub record Status : Type 0 where
  pub build : Build
  pub state : State
  pub flags : ℕ
  pub guests : ℕ

pub record PlatformStatus : Type 0 where
  pub version : Version
  pub state : ℕ
  pub flags : ℕ
  pub build : ℕ
  pub guest_count : ℕ

-- `Default for PlatformStatus`
unfoldable pub no_status : PlatformStatus
no_status = record {
  version = record { major = 0; minor = 0 };
  state = 0;
  flags = 0;
  build = 0;
  guest_count = 0;
}

unfoldable pub platform_status : Layout PlatformStatus
platform_status =
    structure (fields version (fields (word 1) (fields (word 4) (fields (word 1) (word 4)))))
      (λ (v, t). record {
        version = v;
        state = t.0;
        flags = t.1.0;
        build = t.1.1.0;
        guest_count = t.1.1.1;
      })
      (λ s. (s.version, (s.state, (s.flags, (s.build, s.guest_count)))))

abbrev pub IsPlatformStatus : PlatformStatus → Type 0
IsPlatformStatus s =
    IsVersion s.version
    × (IsWord 1 s.state × (IsWord 4 s.flags × (IsWord 1 s.build × IsWord 4 s.guest_count)))

pub platform_status-IsFaithful : IsFaithful platform_status IsPlatformStatus
unfolding platform_status
platform_status-IsFaithful =
    structure-IsFaithful _ _
      (fields-IsFaithful version-IsFaithful (
        fields-IsFaithful (word-IsFaithful 1) (
          fields-IsFaithful (word-IsFaithful 4)
            (fields-IsFaithful (word-IsFaithful 1) (word-IsFaithful 4)))))
      (λ b. refl) (λ a. refl)

-- A place in memory and a length.
pub record Region : Type 0 where
  pub addr : ℕ
  pub len : ℕ

unfoldable pub region : Layout Region
region =
    structure (fields (word 8) (word 4)) (λ (a, n). record { addr = a; len = n })
      (λ r. (r.addr, r.len))

abbrev pub IsRegion : Region → Type 0
IsRegion r = IsWord 8 r.addr × IsWord 4 r.len

pub region-IsFaithful : IsFaithful region IsRegion
unfolding region
region-IsFaithful =
    structure-IsFaithful _ _ (fields-IsFaithful (word-IsFaithful 8) (word-IsFaithful 4)) (λ b. refl)
      (λ a. refl)

-- `PekCsr`
abbrev pub PekCsr : Type 0
PekCsr = Region

-- `PekCsr::new`
unfoldable pub pek_csr_new : ℕ → PekCsr
pek_csr_new cert = record { addr = cert; len = certificate.size % 2 ^ 32 }

pub record PekCertImport : Type 0 where
  pub pek : Region
  pub oca : Region

-- `PekCertImport::new`
unfoldable pub pek_cert_import_new : ℕ → ℕ → PekCertImport
pek_cert_import_new pek oca = record {
  pek = record { addr = pek; len = certificate.size % 2 ^ 32 };
  oca = record { addr = oca; len = certificate.size % 2 ^ 32 };
}

unfoldable pub pek_cert_import : Layout PekCertImport
pek_cert_import =
    structure (fields region region) (λ (p, q). record { pek = p; oca = q }) (λ i. (i.pek, i.oca))

abbrev pub IsPekCertImport : PekCertImport → Type 0
IsPekCertImport i = IsRegion i.pek × IsRegion i.oca

pub pek_cert_import-IsFaithful : IsFaithful pek_cert_import IsPekCertImport
unfolding pek_cert_import
pek_cert_import-IsFaithful =
    structure-IsFaithful _ _ (fields-IsFaithful region-IsFaithful region-IsFaithful) (λ b. refl)
      (λ a. refl)

pub record PdhCertExport : Type 0 where
  pub pdh : Region
  pub certs : Region

-- `PdhCertExport::new`
unfoldable pub pdh_cert_export_new : ℕ → ℕ → PdhCertExport
pdh_cert_export_new pdh certs = record {
  pdh = record { addr = pdh; len = certificate.size % 2 ^ 32 };
  certs = record { addr = certs; len = 3 * certificate.size % 2 ^ 32 };
}

unfoldable pub pdh_cert_export : Layout PdhCertExport
pdh_cert_export =
    structure (fields region region) (λ (p, q). record { pdh = p; certs = q })
      (λ e. (e.pdh, e.certs))

-- `[Certificate; 3]`
unfoldable pub certificates : Layout (Certificate × (Certificate × Certificate))
certificates = fields certificate (fields certificate certificate)

abbrev pub AreCertificates : Certificate × (Certificate × Certificate) → Type 0
AreCertificates (a, (b, c)) = IsCertificate a × (IsCertificate b × IsCertificate c)

pub certificates-of_bytes :
    (cs : Certificate × (Certificate × Certificate))
    → AreCertificates cs
    → certificates.of_bytes (certificates.to_bytes cs) ≡ cs
unfolding certificates
certificates-of_bytes cs fits =
    (fields-IsFaithful certificate-IsFaithful
        (fields-IsFaithful certificate-IsFaithful certificate-IsFaithful)).of_bytes-to_bytes
      cs fits

-- `GetId`
abbrev pub GetId : Type 0
GetId = Region

-- `GetId::new`, of an array of 64 bytes.
unfoldable pub get_id_new : ℕ → GetId
get_id_new id = record { addr = id; len = 64 }

-- `GetId::as_slice`: as many bytes as the length says, from the place; a read beyond the array is
-- undefined.
unfoldable pub as_slice : GetId → Heap → Outcome Indeterminate Bytes
as_slice id heap =
    if leb id.len (length (heap id.addr)) then ok (take id.len (heap id.addr)) else panicked
