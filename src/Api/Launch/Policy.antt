-- ===== src/Api/Launch/Policy.antt =====
-- src/api/launch/mod.rs and src/session/mod.rs: a guest's policy, as a structure, as its bytes and as
-- a number.
use csv_rs.Base.{
  ℕ, ◌*◌, ◌+◌, ◌/◌, ◌%◌, ◌^◌, ◌<◌, ◌≡◌, ◌↔◌, refl, sym, ap, ap₂, ◌∙◌, arith, Bytes, bit_and,
  bit_and_low_six, bit_and_low_four, bit_and_high_four,
}
use csv_rs.Version.{Version, of_u16, version, IsVersion, version-IsFaithful}
use csv_rs.Util.Memory.{
  Layout, IsFaithful, word, IsWord, fields, structure, word-IsFaithful, fields-IsFaithful,
  structure-IsFaithful, le_value, le_bytes,
}

pub record Policy : Type 0 where
  pub flags : ℕ
  pub minfw : Version

-- `PolicyFlags`
abbrev pub no_debug : ℕ
no_debug = 0b00000001

abbrev pub no_key_sharing : ℕ
no_key_sharing = 0b00000010

abbrev pub encrypted_state : ℕ
encrypted_state = 0b00000100

abbrev pub no_send : ℕ
no_send = 0b00001000

abbrev pub domain : ℕ
domain = 0b00010000

abbrev pub csv : ℕ
csv = 0b00100000

-- `PolicyFlags::from_bits_truncate`: the six flags alone are kept.
unfoldable pub from_bits_truncate : ℕ → ℕ
from_bits_truncate bits =
    bit_and bits (no_debug + no_key_sharing + encrypted_state + no_send + domain + csv)

-- `From<u32> for Policy`
unfoldable pub of_u32 : ℕ → Policy
of_u32 p = record { flags = from_bits_truncate (p % 2 ^ 16); minfw = of_u16 (p / 2 ^ 16 % 2 ^ 16) }

unfoldable pub policy : Layout Policy
policy =
    structure (fields (word 2) version) (λ (f, v). record { flags = f; minfw = v })
      (λ p. (p.flags, p.minfw))

-- `Policy::bytes`
unfoldable pub bytes : Policy → Bytes
bytes p = policy.to_bytes p

-- A policy in memory has any sixteen bits for its flags.
abbrev pub IsPolicy : Policy → Type 0
IsPolicy p = IsWord 2 p.flags × IsVersion p.minfw

pub policy-IsFaithful : IsFaithful policy IsPolicy
unfolding policy
policy-IsFaithful =
    structure-IsFaithful _ _ (fields-IsFaithful (word-IsFaithful 2) version-IsFaithful) (λ b. refl)
      (λ a. refl)

-- The number that the bytes of a policy are, on a host that keeps the lowest byte first.
bytes-value :
    (p : Policy)
    → IsPolicy p
    → le_value (bytes p) ≡ p.flags + 65536 * (p.minfw.major + 256 * p.minfw.minor)
unfolding bytes policy version le_value le_bytes
bytes-value p (f, (a, b)) = omega arith

-- The version that a number's two high bytes become.
of_u16-eq :
    (major minor : ℕ)
    → major < 256
    → minor < 256
    → of_u16 (major + 256 * minor) ≡ record { major = major / 16; minor = major % 16 }
unfolding of_u16
of_u16-eq major minor h k =
    let v = major + 256 * minor in
    ap₂ (λ (a b : ℕ). record { major = a; minor = b }) {x = bit_and v 0xf0 / 2 ^ 4 % 2 ^ 8}
      {y = major / 16} (omega (arith, bit_and_high_four v)) (omega (arith, bit_and_low_four v))

abbrev halved : Policy → Policy
halved p = record {
  flags = p.flags % 64;
  minfw = record { major = p.minfw.major / 16; minor = p.minfw.major % 16 };
}

of_u32-value : (p : Policy) → IsPolicy p → of_u32 (le_value (bytes p)) ≡ halved p
unfolding of_u32 from_bits_truncate
of_u32-value p (f, (a, b)) =
    let v = p.minfw.major + 256 * p.minfw.minor in
    let value = bytes-value p (f, (a, b)) in
    let low : le_value (bytes p) % 2 ^ 16 ≡ p.flags = omega (arith, value) in
    let high : le_value (bytes p) / 2 ^ 16 % 2 ^ 16 ≡ v = omega (arith, value) in
    ap₂ (λ (x : ℕ) (y : Version). record { flags = x; minfw = y })
      (bit_and_low_six _ ∙ ap (λ (m : ℕ). m % 64) low)
      (ap of_u16 high ∙ of_u16-eq p.minfw.major p.minfw.minor a b)

-- Only version 0.0 is its own two halves.
halved-eq_iff :
    (p : Policy) → p.flags < 64 → (halved p ≡ p) ↔ (p.minfw ≡ record { major = 0; minor = 0 })
halved-eq_iff p known = (
  λ same.
      let major : p.minfw.major / 16 ≡ p.minfw.major = ap (λ (q : Policy). q.minfw.major) same in
      let minor : p.minfw.major % 16 ≡ p.minfw.minor = ap (λ (q : Policy). q.minfw.minor) same in
      let no_major : p.minfw.major ≡ 0 = omega (arith, major) in
      let no_minor : p.minfw.minor ≡ 0 = omega (arith, major, minor) in
      ap₂ (λ (a b : ℕ). record { major = a; minor = b }) no_major no_minor,
  λ zero.
      let major : p.minfw.major ≡ 0 = ap (λ (v : Version). v.major) zero in
      let minor : p.minfw.minor ≡ 0 = ap (λ (v : Version). v.minor) zero in
      let flags : p.flags % 64 ≡ p.flags = omega arith in
      let high : p.minfw.major / 16 ≡ p.minfw.major = omega (arith, major) in
      let low : p.minfw.major % 16 ≡ p.minfw.minor = omega (arith, major, minor) in
      ap₂ (λ (x : ℕ) (y : Version). record { flags = x; minfw = y }) flags
        (ap₂ (λ (a b : ℕ). record { major = a; minor = b }) high low),
)

-- Of a policy's own bytes as a number, the conversion keeps the six known flags, and takes the two
-- halves of the major version's byte for the version. It gives a policy of known flags back exactly
-- if the policy asks for version 0.0.
pub of_u32-bytes :
    (p : Policy)
    → IsPolicy p
    → (of_u32 (le_value (bytes p)) ≡ record {
      flags = p.flags % 64;
      minfw = record { major = p.minfw.major / 16; minor = p.minfw.major % 16 };
    })
      × (p.flags < 64
          → (of_u32 (le_value (bytes p)) ≡ p) ↔ (p.minfw ≡ record { major = 0; minor = 0 }))
of_u32-bytes p fits =
    let value = of_u32-value p fits in
    (
      value,
      λ known.
          let same = halved-eq_iff p known in (λ h. same.0 (sym value ∙ h), λ h. value ∙ same.1 h),
    )
