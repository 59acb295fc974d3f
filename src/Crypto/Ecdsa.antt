-- ===== src/Crypto/Ecdsa.antt =====
-- src/crypto/sig/ecdsa.rs: raw signatures, two numbers of 72 bytes, lowest first.
use csv_rs.Base.{Bytes, refl, replicate, Outcome, ok, ◌>>=◌, IsArray}
use csv_rs.Error.{IoError}
use csv_rs.Util.BigNum.{from_le, as_le_bytes}
use csv_rs.OpenSsl.{BigNums}
use csv_rs.Util.Memory.{
  Layout, IsFaithful, array, fields, structure, array-IsFaithful, fields-IsFaithful,
  structure-IsFaithful,
}

pub record Signature : Type 0 where
  pub r : Bytes
  pub s : Bytes

-- `impl Default`
abbrev pub empty : Signature
empty = record { r = replicate 72 0; s = replicate 72 0 }

unfoldable pub signature : Layout Signature
signature =
    structure (fields (array 72) (array 72)) (λ (r, s). record { r = r; s = s }) (λ g. (g.r, g.s))

abbrev pub IsSignature : Signature → Type 0
IsSignature g = IsArray 72 g.r × IsArray 72 g.s

pub signature-IsFaithful : IsFaithful signature IsSignature
unfolding signature
signature-IsFaithful =
    structure-IsFaithful _ _ (fields-IsFaithful (array-IsFaithful 72) (array-IsFaithful 72))
      (λ b. refl) (λ a. refl)

module _ (o : BigNums) where
  -- `From<ecdsa::EcdsaSig> for Signature`
  unfoldable pub of_ecdsa_sig : o.EcdsaSig → Outcome IoError Signature
  of_ecdsa_sig value = do
    r ← as_le_bytes o 72 (o.r value)
    s ← as_le_bytes o 72 (o.s value)
    ok (record { r = r; s = s })

  -- `TryFrom<&[u8]> for Signature`
  unfoldable pub of_slice : Bytes → Outcome IoError Signature
  unfolding of_ecdsa_sig
  of_slice value = do sig ← o.from_der value; of_ecdsa_sig sig

  -- `TryFrom<&Signature> for ecdsa::EcdsaSig`
  unfoldable pub to_ecdsa_sig : Signature → Outcome IoError o.EcdsaSig
  to_ecdsa_sig value = do
    r ← from_le o value.r
    s ← from_le o value.s
    o.from_private_components r s

  -- `TryFrom<&Signature> for Vec<u8>`
  unfoldable pub to_vec : Signature → Outcome IoError Bytes
  unfolding to_ecdsa_sig
  to_vec value = do sig ← to_ecdsa_sig value; o.to_der sig
