-- ===== src/Certs/Csv/Data.antt =====
-- src/certs/csv/cert/mod.rs and key/mod.rs: the structures of a CSV certificate, and their memory
-- layouts.
use csv_rs.Base.{ℕ, Bytes, refl, IsArray}
use csv_rs.Version.{Version, version, IsVersion, version-IsFaithful}
use csv_rs.Util.Memory.{
  Layout, IsFaithful, array, word, IsWord, fields, structure, array-IsFaithful, word-IsFaithful,
  fields-IsFaithful, structure-IsFaithful,
}
use csv_rs.Certs.Usage.{Usage, Algorithm}
use csv_rs.Crypto.Ecc
use csv_rs.Crypto.Ecdsa

-- `key::PubKey`
pub record PubKey : Type 0 where
  pub usage : Usage
  pub algo : Algorithm
  pub key : Ecc.PubKey

pub record Data : Type 0 where
  pub firmware : Version
  pub reserved1 : ℕ
  pub pubkey : PubKey
  pub uid_size : ℕ
  pub user_id : Bytes
  pub sid : Bytes
  pub reserved2 : Bytes

pub record Body : Type 0 where
  pub ver : ℕ
  pub info : Data

pub record Signatures : Type 0 where
  pub usage : Usage
  pub algo : Algorithm
  pub signature : Ecdsa.Signature
  pub reserved : Bytes

-- The array of two signatures is its two elements.
pub record Certificate : Type 0 where
  pub body : Body
  pub sig0 : Signatures
  pub sig1 : Signatures

unfoldable pub pub_key : Layout PubKey
pub_key =
    structure (fields (word 4) (fields (word 4) Ecc.pub_key))
      (λ (u, t). record { usage = u; algo = t.0; key = t.1 }) (λ k. (k.usage, (k.algo, k.key)))

unfoldable pub info : Layout Data
info =
    structure
      (fields version (
        fields (word 2)
          (fields pub_key (fields (word 2) (fields (array 254) (fields (array 16) (array 608)))))))
      (λ (f, t). record {
        firmware = f;
        reserved1 = t.0;
        pubkey = t.1.0;
        uid_size = t.1.1.0;
        user_id = t.1.1.1.0;
        sid = t.1.1.1.1.0;
        reserved2 = t.1.1.1.1.1;
      })
      (λ d.
        (d.firmware, (d.reserved1, (d.pubkey, (d.uid_size, (d.user_id, (d.sid, d.reserved2)))))))

unfoldable pub body : Layout Body
body =
    structure (fields (word 4) info) (λ (v, d). record { ver = v; info = d }) (λ b. (b.ver, b.info))

unfoldable pub signatures : Layout Signatures
signatures =
    structure (fields (word 4) (fields (word 4) (fields Ecdsa.signature (array 368))))
      (λ (u, t). record { usage = u; algo = t.0; signature = t.1.0; reserved = t.1.1 })
      (λ s. (s.usage, (s.algo, (s.signature, s.reserved))))

unfoldable pub certificate : Layout Certificate
certificate =
    structure (fields body (fields signatures signatures))
      (λ (b, t). record { body = b; sig0 = t.0; sig1 = t.1 }) (λ c. (c.body, (c.sig0, c.sig1)))

abbrev pub IsPubKey : PubKey → Type 0
IsPubKey k = IsWord 4 k.usage × (IsWord 4 k.algo × Ecc.IsPubKey k.key)

abbrev pub IsData : Data → Type 0
IsData d =
    IsVersion d.firmware
    × (IsWord 2 d.reserved1
        × (IsPubKey d.pubkey
            × (IsWord 2 d.uid_size
                × (IsArray 254 d.user_id × (IsArray 16 d.sid × IsArray 608 d.reserved2)))))

abbrev pub IsBody : Body → Type 0
IsBody b = IsWord 4 b.ver × IsData b.info

abbrev pub IsSignatures : Signatures → Type 0
IsSignatures s =
    IsWord 4 s.usage × (IsWord 4 s.algo × (Ecdsa.IsSignature s.signature × IsArray 368 s.reserved))

-- The values that the Rust type has.
abbrev pub IsCertificate : Certificate → Type 0
IsCertificate c = IsBody c.body × (IsSignatures c.sig0 × IsSignatures c.sig1)

pub pub_key-IsFaithful : IsFaithful pub_key IsPubKey
unfolding pub_key
pub_key-IsFaithful =
    structure-IsFaithful _ _
      (fields-IsFaithful (word-IsFaithful 4)
        (fields-IsFaithful (word-IsFaithful 4) Ecc.pub_key-IsFaithful))
      (λ b. refl) (λ a. refl)

pub info-IsFaithful : IsFaithful info IsData
unfolding info
info-IsFaithful =
    structure-IsFaithful _ _
      (fields-IsFaithful version-IsFaithful (
        fields-IsFaithful (word-IsFaithful 2) (
          fields-IsFaithful pub_key-IsFaithful (
            fields-IsFaithful (word-IsFaithful 2) (
              fields-IsFaithful (array-IsFaithful 254)
                (fields-IsFaithful (array-IsFaithful 16) (array-IsFaithful 608)))))))
      (λ b. refl) (λ a. refl)

pub body-IsFaithful : IsFaithful body IsBody
unfolding body
body-IsFaithful =
    structure-IsFaithful _ _ (fields-IsFaithful (word-IsFaithful 4) info-IsFaithful) (λ b. refl)
      (λ a. refl)

pub signatures-IsFaithful : IsFaithful signatures IsSignatures
unfolding signatures
signatures-IsFaithful =
    structure-IsFaithful _ _
      (fields-IsFaithful (word-IsFaithful 4) (
        fields-IsFaithful (word-IsFaithful 4)
          (fields-IsFaithful Ecdsa.signature-IsFaithful (array-IsFaithful 368))))
      (λ b. refl) (λ a. refl)

pub certificate-IsFaithful : IsFaithful certificate IsCertificate
unfolding certificate
certificate-IsFaithful =
    structure-IsFaithful _ _
      (fields-IsFaithful body-IsFaithful
        (fields-IsFaithful signatures-IsFaithful signatures-IsFaithful))
      (λ b. refl) (λ a. refl)

pub key_fits : {c : Certificate} → IsCertificate c → Ecc.IsPubKey c.body.info.pubkey.key
key_fits h = h.0.1.1.1.0.1.1

pub user_id_fits : {c : Certificate} → IsCertificate c → IsArray 254 c.body.info.user_id
user_id_fits h = h.0.1.1.1.1.1.0
