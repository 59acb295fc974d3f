-- ===== src/Version.antt =====
-- src/lib.rs: the version and the build of the platform.
use csv_rs.Base.{ℕ, ◌/◌, ◌^◌, ◌%◌, bit_and, refl, ◌+◌, ltb, if◌then◌else◌, Bytes, [], ◌∷◌, ◌++◌}
use csv_rs.Util.Memory.{
  Layout, IsFaithful, word, IsWord, fields, structure, word-IsFaithful, fields-IsFaithful,
  structure-IsFaithful,
}

pub record Version : Type 0 where
  pub major : ℕ
  pub minor : ℕ

pub record Build : Type 0 where
  pub version : Version
  pub build : ℕ

-- `From<u16> for Version`: `v >> 4` cuts to a byte what the mask has left.
unfoldable pub of_u16 : ℕ → Version
of_u16 v = record { major = bit_and v 0xf0 / 2 ^ 4 % 2 ^ 8; minor = bit_and v 0x0f % 2 ^ 8 }

unfoldable pub version : Layout Version
version =
    structure (fields (word 1) (word 1)) (λ (a, b). record { major = a; minor = b })
      (λ v. (v.major, v.minor))

abbrev pub IsVersion : Version → Type 0
IsVersion v = IsWord 1 v.major × IsWord 1 v.minor

pub version-IsFaithful : IsFaithful version IsVersion
unfolding version
version-IsFaithful =
    structure-IsFaithful _ _ (fields-IsFaithful (word-IsFaithful 1) (word-IsFaithful 1)) (λ b. refl)
      (λ a. refl)

-- `{}` of a byte.
unfoldable pub decimal : ℕ → Bytes
decimal n =
    if ltb n 10
    then (48 + n) ∷ []
    else if ltb n 100
    then (48 + n / 10) ∷ (48 + n % 10) ∷ []
    else (48 + n / 100) ∷ (48 + n / 10 % 10) ∷ (48 + n % 10) ∷ []

-- `Display for Version`
unfoldable pub display : Version → Bytes
unfolding decimal
display v = decimal v.major ++ (46 ∷ decimal v.minor)
