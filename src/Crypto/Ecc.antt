-- ===== src/Crypto/Ecc.antt =====
-- src/crypto/key: curve groups and raw public keys.
use csv_rs.Base.{ℕ, ◌==◌, if◌then◌else◌, Bytes, refl, Outcome, ok, err, IsArray}
use csv_rs.Error.{IoError, of_kind, invalid_input}
use csv_rs.OpenSsl.{Nid, sm2, other}
use csv_rs.Util.Memory.{
  Layout, IsFaithful, array, word, IsWord, fields, structure, array-IsFaithful, word-IsFaithful,
  fields-IsFaithful, structure-IsFaithful,
}

-- `struct Group(u32)`
abbrev pub Group : Type 0
Group = ℕ

abbrev pub sm2_256 : Group
sm2_256 = 3

-- `Group::size`: the bytes of a coordinate.
unfoldable pub group_size : Group → Outcome IoError ℕ
group_size g = if g == sm2_256 then ok 32 else err (of_kind invalid_input)

-- `TryFrom<Group> for nid::Nid`
unfoldable pub group_nid : Group → Outcome IoError Nid
group_nid g = if g == sm2_256 then ok sm2 else err (of_kind invalid_input)

-- `TryFrom<nid::Nid> for Group`
unfoldable pub nid_group : Nid → Outcome IoError Group
nid_group sm2 = ok sm2_256
nid_group (other n) = err (of_kind invalid_input)

pub record PubKey : Type 0 where
  pub g : Group
  pub x : Bytes
  pub y : Bytes

unfoldable pub pub_key : Layout PubKey
pub_key =
    structure (fields (word 4) (fields (array 72) (array 72)))
      (λ (g, c). record { g = g; x = c.0; y = c.1 }) (λ k. (k.g, (k.x, k.y)))

abbrev pub IsPubKey : PubKey → Type 0
IsPubKey k = IsWord 4 k.g × (IsArray 72 k.x × IsArray 72 k.y)

pub pub_key-IsFaithful : IsFaithful pub_key IsPubKey
unfolding pub_key
pub_key-IsFaithful =
    structure-IsFaithful _ _
      (fields-IsFaithful (word-IsFaithful 4)
        (fields-IsFaithful (array-IsFaithful 72) (array-IsFaithful 72)))
      (λ b. refl) (λ a. refl)
