-- ===== src/Api/Launch/Session.antt =====
-- src/api/launch/mod.rs: the session that starts a launch, its signature, and the packet of both.
use csv_rs.Base.{refl, Bytes, take, replicate, Outcome, ok, ◌>>=◌, IsArray}
use csv_rs.Error.{IoError}
use csv_rs.Util.{load, save}
use csv_rs.Util.Memory.{
  Layout, IsFaithful, array, fields, structure, array-IsFaithful, fields-IsFaithful,
  structure-IsFaithful,
}
use csv_rs.Util.BigNum.{write_from}
use csv_rs.Crypto.Ecdsa
use csv_rs.Certs.Csv.Data as Csv
use csv_rs.Api.Launch.Policy.{Policy, policy, IsPolicy, policy-IsFaithful}

pub record SessionBody : Type 0 where
  pub nonce : Bytes
  pub wrap_tk : Bytes
  pub wrap_iv : Bytes
  pub wrap_mac : Bytes
  pub session_mac : Bytes
  pub key_id : Bytes
  pub rnd_pub_key_data : Bytes
  pub ms_enc : Bytes
  pub vm_digest : Bytes
  pub pubkey_digest : Bytes
  pub vm_id : Bytes
  pub vm_version : Bytes
  pub user_data : Bytes

pub record SessionSig : Type 0 where
  pub r : Bytes
  pub s : Bytes

pub record Session : Type 0 where
  pub body : SessionBody
  pub sig : SessionSig

-- The policy, the tenant's Diffie-Hellman certificate and the channel.
pub record Start : Type 0 where
  pub policy : Policy
  pub cert : Csv.Certificate
  pub session : Session

unfoldable pub session_body : Layout SessionBody
session_body =
    structure
      (fields (array 16) (
        fields (array 32) (
          fields (array 16) (
            fields (array 32) (
              fields (array 32) (
                fields (array 16) (
                  fields (array 148) (
                    fields (array 256) (
                      fields (array 32) (
                        fields (array 32)
                          (fields (array 16) (fields (array 16) (array 64)))))))))))))
      (λ t. record {
        nonce = t.0;
        wrap_tk = t.1.0;
        wrap_iv = t.1.1.0;
        wrap_mac = t.1.1.1.0;
        session_mac = t.1.1.1.1.0;
        key_id = t.1.1.1.1.1.0;
        rnd_pub_key_data = t.1.1.1.1.1.1.0;
        ms_enc = t.1.1.1.1.1.1.1.0;
        vm_digest = t.1.1.1.1.1.1.1.1.0;
        pubkey_digest = t.1.1.1.1.1.1.1.1.1.0;
        vm_id = t.1.1.1.1.1.1.1.1.1.1.0;
        vm_version = t.1.1.1.1.1.1.1.1.1.1.1.0;
        user_data = t.1.1.1.1.1.1.1.1.1.1.1.1;
      })
      (λ b. (
        b.nonce,
        (
          b.wrap_tk,
          (
            b.wrap_iv,
            (
              b.wrap_mac,
              (
                b.session_mac,
                (
                  b.key_id,
                  (
                    b.rnd_pub_key_data,
                    (
                      b.ms_enc,
                      (b.vm_digest, (b.pubkey_digest, (b.vm_id, (b.vm_version, b.user_data)))),
                    ),
                  ),
                ),
              ),
            ),
          ),
        ),
      ))

unfoldable pub session_sig : Layout SessionSig
session_sig =
    structure (fields (array 32) (array 32)) (λ (r, s). record { r = r; s = s }) (λ g. (g.r, g.s))

unfoldable pub session : Layout Session
session =
    structure (fields session_body session_sig) (λ (b, g). record { body = b; sig = g })
      (λ s. (s.body, s.sig))

unfoldable pub start : Layout Start
start =
    structure (fields policy (fields Csv.certificate session))
      (λ (p, t). record { policy = p; cert = t.0; session = t.1 })
      (λ s. (s.policy, (s.cert, s.session)))

abbrev pub IsSessionBody : SessionBody → Type 0
IsSessionBody b =
    (IsArray 16 b.nonce
      × (IsArray 32 b.wrap_tk
          × (IsArray 16 b.wrap_iv
              × (IsArray 32 b.wrap_mac
                  × (IsArray 32 b.session_mac
                      × (IsArray 16 b.key_id
                          × (IsArray 148 b.rnd_pub_key_data
                              × (IsArray 256 b.ms_enc
                                  × (IsArray 32 b.vm_digest
                                      × (IsArray 32 b.pubkey_digest
                                          × (IsArray 16 b.vm_id
                                              × (IsArray 16 b.vm_version
                                                  × IsArray 64 b.user_data))))))))))))

abbrev pub IsSessionSig : SessionSig → Type 0
IsSessionSig g = IsArray 32 g.r × IsArray 32 g.s

abbrev pub IsSession : Session → Type 0
IsSession s = IsSessionBody s.body × IsSessionSig s.sig

abbrev pub IsStart : Start → Type 0
IsStart s = IsPolicy s.policy × (Csv.IsCertificate s.cert × IsSession s.session)

pub session_body-IsFaithful : IsFaithful session_body IsSessionBody
unfolding session_body
session_body-IsFaithful =
    structure-IsFaithful _ _
      (fields-IsFaithful (array-IsFaithful 16) (
        fields-IsFaithful (array-IsFaithful 32) (
          fields-IsFaithful (array-IsFaithful 16) (
            fields-IsFaithful (array-IsFaithful 32) (
              fields-IsFaithful (array-IsFaithful 32) (
                fields-IsFaithful (array-IsFaithful 16) (
                  fields-IsFaithful (array-IsFaithful 148) (
                    fields-IsFaithful (array-IsFaithful 256) (
                      fields-IsFaithful (array-IsFaithful 32) (
                        fields-IsFaithful (array-IsFaithful 32) (
                          fields-IsFaithful (array-IsFaithful 16) (
                            fields-IsFaithful (array-IsFaithful 16)
                              (array-IsFaithful 64)))))))))))))
      (λ b. refl) (λ a. refl)

pub session_sig-IsFaithful : IsFaithful session_sig IsSessionSig
unfolding session_sig
session_sig-IsFaithful =
    structure-IsFaithful _ _ (fields-IsFaithful (array-IsFaithful 32) (array-IsFaithful 32))
      (λ b. refl) (λ a. refl)

pub session-IsFaithful : IsFaithful session IsSession
unfolding session
session-IsFaithful =
    structure-IsFaithful _ _ (fields-IsFaithful session_body-IsFaithful session_sig-IsFaithful)
      (λ b. refl) (λ a. refl)

pub start-IsFaithful : IsFaithful start IsStart
unfolding start
start-IsFaithful =
    structure-IsFaithful _ _
      (fields-IsFaithful policy-IsFaithful
        (fields-IsFaithful Csv.certificate-IsFaithful session-IsFaithful))
      (λ b. refl) (λ a. refl)

-- `Decoder::decode` of `Start`, with what is left of the reader.
unfoldable pub decode : Bytes → Outcome IoError (Start × Bytes)
decode reader = load start reader

-- `Encoder::encode` of `Start`
unfoldable pub encode : Start → Bytes → Outcome IoError Bytes
encode s writer = save start s writer

-- `From<ecdsa::Signature> for SessionSig`: the 32 lowest bytes of each number.
unfoldable pub of_signature : Ecdsa.Signature → Outcome IoError SessionSig
of_signature value = do
  r ← write_from (replicate 32 0) (take 32 value.r)
  s ← write_from (replicate 32 0) (take 32 value.s)
  ok (record { r = r; s = s })

-- `From<SessionSig> for ecdsa::Signature`
unfoldable pub to_signature : SessionSig → Outcome IoError Ecdsa.Signature
to_signature value = do
  r ← write_from (replicate 72 0) value.r
  s ← write_from (replicate 72 0) value.s
  ok (record { r = r; s = s })
