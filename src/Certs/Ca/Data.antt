-- ===== src/Certs/Ca/Data.antt =====
-- src/certs/ca/cert/mod.rs: the structures of a certificate, and their memory layouts.
use csv_rs.Base.{ℕ, Bytes, refl, IsArray}
use csv_rs.Util.Memory.{
  Layout, IsFaithful, array, word, IsWord, fields, structure, array-IsFaithful, word-IsFaithful,
  fields-IsFaithful, structure-IsFaithful,
}
use csv_rs.Certs.Usage.{Usage}
use csv_rs.Crypto.Ecc.{PubKey, pub_key, IsPubKey, pub_key-IsFaithful}
use csv_rs.Crypto.Ecdsa.{Signature, signature, IsSignature, signature-IsFaithful}

pub record Data : Type 0 where
  pub kid : Bytes
  pub sid : Bytes
  pub usage : Usage
  pub reserved : Bytes

pub record Preamble : Type 0 where
  pub ver : ℕ
  pub info : Data

pub record Body : Type 0 where
  pub preamble : Preamble
  pub pubkey : PubKey
  pub uid_size : ℕ
  pub user_id : Bytes
  pub reserved : Bytes

pub record Certificate : Type 0 where
  pub body : Body
  pub signature : Signature
  pub reserved : Bytes

unfoldable pub info : Layout Data
info =
    structure (fields (array 16) (fields (array 16) (fields (word 4) (array 24))))
      (λ (k, t). record { kid = k; sid = t.0; usage = t.1.0; reserved = t.1.1 })
      (λ d. (d.kid, (d.sid, (d.usage, d.reserved))))

unfoldable pub preamble : Layout Preamble
preamble =
    structure (fields (word 4) info) (λ (v, d). record { ver = v; info = d }) (λ p. (p.ver, p.info))

unfoldable pub body : Layout Body
body =
    structure (fields preamble (fields pub_key (fields (word 2) (fields (array 254) (array 108)))))
      (λ (p, t). record {
        preamble = p;
        pubkey = t.0;
        uid_size = t.1.0;
        user_id = t.1.1.0;
        reserved = t.1.1.1;
      })
      (λ b. (b.preamble, (b.pubkey, (b.uid_size, (b.user_id, b.reserved)))))

unfoldable pub certificate : Layout Certificate
certificate =
    structure (fields body (fields signature (array 112)))
      (λ (b, t). record { body = b; signature = t.0; reserved = t.1 })
      (λ c. (c.body, (c.signature, c.reserved)))

abbrev pub IsData : Data → Type 0
IsData d = IsArray 16 d.kid × (IsArray 16 d.sid × (IsWord 4 d.usage × IsArray 24 d.reserved))

abbrev pub IsPreamble : Preamble → Type 0
IsPreamble p = IsWord 4 p.ver × IsData p.info

abbrev pub IsBody : Body → Type 0
IsBody b =
    IsPreamble b.preamble
    × (IsPubKey b.pubkey × (IsWord 2 b.uid_size × (IsArray 254 b.user_id × IsArray 108 b.reserved)))

-- The values that the Rust type has.
abbrev pub IsCertificate : Certificate → Type 0
IsCertificate c = IsBody c.body × (IsSignature c.signature × IsArray 112 c.reserved)

pub info-IsFaithful : IsFaithful info IsData
unfolding info
info-IsFaithful =
    structure-IsFaithful _ _
      (fields-IsFaithful (array-IsFaithful 16) (
        fields-IsFaithful (array-IsFaithful 16)
          (fields-IsFaithful (word-IsFaithful 4) (array-IsFaithful 24))))
      (λ b. refl) (λ a. refl)

pub preamble-IsFaithful : IsFaithful preamble IsPreamble
unfolding preamble
preamble-IsFaithful =
    structure-IsFaithful _ _ (fields-IsFaithful (word-IsFaithful 4) info-IsFaithful) (λ b. refl)
      (λ a. refl)

pub body-IsFaithful : IsFaithful body IsBody
unfolding body
body-IsFaithful =
    structure-IsFaithful _ _
      (fields-IsFaithful preamble-IsFaithful (
        fields-IsFaithful pub_key-IsFaithful (
          fields-IsFaithful (word-IsFaithful 2)
            (fields-IsFaithful (array-IsFaithful 254) (array-IsFaithful 108)))))
      (λ b. refl) (λ a. refl)

pub certificate-IsFaithful : IsFaithful certificate IsCertificate
unfolding certificate
certificate-IsFaithful =
    structure-IsFaithful _ _
      (fields-IsFaithful body-IsFaithful
        (fields-IsFaithful signature-IsFaithful (array-IsFaithful 112)))
      (λ b. refl) (λ a. refl)

pub key_fits : {c : Certificate} → IsCertificate c → IsPubKey c.body.pubkey
key_fits h = h.0.1.0

pub user_id_fits : {c : Certificate} → IsCertificate c → IsArray 254 c.body.user_id
user_id_fits h = h.0.1.1.1.0
