-- ===== src/Certs/Csv/Cert.antt =====
-- src/certs/csv/cert/mod.rs and key/mod.rs: generating, signing, checking, reading and writing the
-- certificates of the platform.
use csv_rs.Base.{
  ℕ, [], ◌^◌, Bytes, Bool, true, false, not, ◌||◌, ◌==◌, ltb, if◌then◌else◌, replicate, resize,
  length,
}
use csv_rs.Base.{Option, some, none, Outcome, ok, err, is_ok, ◌>>=◌}
use csv_rs.Error.{IoError, of_kind, invalid_input}
use csv_rs.OpenSsl.{BigNums, Sm2Lib}
use csv_rs.Util.{load, save, read_exact, slice_to}
use csv_rs.Util.Memory.{word}
use csv_rs.Certs.Usage.{
  Usage, Algorithm, inv, no_algorithm, sm2_sa, sm2_dh, is_usage, usage_algorithm, usage_name,
  algorithm_digest,
}
use csv_rs.Certs.Ca.Cert as Ca
use csv_rs.Certs.Ca.Data as CaData
use csv_rs.Crypto
use csv_rs.Crypto.{Signature, PublicKey, PrivateKey}
use csv_rs.Crypto.Ecc.{sm2_256}
use csv_rs.Crypto.Ecdsa
use csv_rs.Crypto.Sm2
use csv_rs.Certs.Csv.Data.{PubKey, Body, Signatures, Certificate, body}

-- `impl Default for Signatures`
unfoldable pub no_signature : Signatures
no_signature = record {
  usage = inv;
  algo = no_algorithm;
  signature = Ecdsa.empty;
  reserved = replicate 368 0;
}

-- `Signatures::is_empty`
unfoldable pub is_empty : Signatures → Bool
unfolding is_usage
is_empty s = if is_usage s.usage then not (s.algo == sm2_sa || s.algo == sm2_dh) else true

-- `TryFrom<&Certificate> for PublicKey`
unfoldable pub public_key : Certificate → PublicKey
public_key value = record {
  id = none;
  key = value.body.info.pubkey.key;
  usage = value.body.info.pubkey.usage;
  algo = some value.body.info.pubkey.algo;
}

-- `TryFrom<&Certificate> for Usage`
unfoldable pub usage : Certificate → Usage
usage value = value.body.info.pubkey.usage

-- `Decoder::decode` of `Signatures`
unfoldable pub decode_signatures : Bytes → Outcome IoError (Signatures × Bytes)
decode_signatures reader = do
  (u, reader₁) ← load (word 4) reader
  (a, reader₂) ← load (word 4) reader₁
  (s, reader₃) ← load Ecdsa.signature reader₂
  (reserved, reader₄) ← read_exact 368 reader₃
  ok (record { usage = u; algo = a; signature = s; reserved = reserved }, reader₄)

-- `Decoder::decode` of a certificate
unfoldable pub decode : Bytes → Outcome IoError (Certificate × Bytes)
unfolding decode_signatures
decode reader = do
  (b, reader₁) ← load body reader
  (sig0, reader₂) ← decode_signatures reader₁
  (sig1, reader₃) ← decode_signatures reader₂
  ok (record { body = b; sig0 = sig0; sig1 = sig1 }, reader₃)

-- `Encoder<Body>::encode`: the body alone.
unfoldable pub encode : Certificate → Bytes → Outcome IoError Bytes
encode c writer = save body c.body writer

module _ (o : BigNums) where
  -- `TryFrom<&crypto::Signature> for Signatures`
  unfoldable pub of_signature : Signature → Outcome IoError Signatures
  of_signature value = do
    let algo : Algorithm = elim value.algo [ none ↦ no_algorithm | some a ↦ a ]
    raw ← Ecdsa.of_slice o value.sig
    ok (record { usage = value.usage; algo = algo; signature = raw; reserved = replicate 368 0 })

  -- `TryFrom<&Signatures> for Option<Signature>`
  unfoldable pub to_signature : Signatures → Outcome IoError (Option Signature)
  unfolding is_empty
  to_signature value = if is_empty value then ok none else do
    sig ← Ecdsa.to_vec o value.signature
    ok (some (record { sig = sig; usage = value.usage; algo = some value.algo; id = none }))

  -- `TryFrom<&Certificate> for [Option<Signature>; 2]`
  unfoldable pub to_signatures : Certificate → Outcome IoError (Option Signature × Option Signature)
  to_signatures value = do
    sig0 ← to_signature value.sig0
    sig1 ← to_signature value.sig1
    ok (sig0, sig1)

module _ (l : Sm2Lib) where
  -- One round of the loop: whether the signature, if it is there, is good.
  unfoldable pub accepts :
      PublicKey → Outcome IoError Bytes → ℕ → Bytes → Option Signature → Outcome IoError Bool
  accepts key encoded uid_size user_id none = ok false
  accepts key encoded uid_size user_id (some sig) = do
    uid ← slice_to uid_size user_id
    is_ok (Crypto.verify l key encoded uid sig)

  -- `for sig in sigs.iter().flatten()`: the first good signature ends the loop.
  unfoldable pub any_signature :
      PublicKey
      → Outcome IoError Bytes
      → ℕ
      → Bytes
      → Option Signature
      → Option Signature
      → Outcome IoError (Unit {0})
  unfolding accepts
  any_signature key encoded uid_size user_id sig0 sig1 = do
    first ← accepts key encoded uid_size user_id sig0
    let rest = do
      second ← accepts key encoded uid_size user_id sig1
      if second then ok tt else err (of_kind invalid_input)
    if first then ok tt else rest

module _ (o : BigNums) (l : Sm2Lib) where
  -- `(&Certificate, &Certificate)::verify`: the first signed the second.
  unfoldable pub verify : Certificate → Certificate → Outcome IoError (Unit {0})
  unfolding to_signatures any_signature public_key
  verify signer signee = do
    (sig0, sig1) ← to_signatures o signee
    any_signature l (public_key signer) (encode signee []) signer.body.info.uid_size
        signer.body.info.user_id sig0 sig1

  -- `(&ca::cert::Certificate, &Certificate)::verify`
  unfoldable pub verify_by_ca : CaData.Certificate → Certificate → Outcome IoError (Unit {0})
  unfolding to_signatures any_signature
  verify_by_ca signer signee = do
    (sig0, sig1) ← to_signatures o signee
    any_signature l (Ca.public_key signer) (encode signee []) signer.body.uid_size
        signer.body.user_id sig0 sig1

  -- What signing puts into the free slot.
  unfoldable pub signed : PrivateKey l.EcKey → Body → Bytes → l.Env → Outcome IoError Signatures
  signed prv b uid env = do
    msg ← save body b []
    sig ← Sm2.sign l prv.key uid msg env
    algo ← usage_algorithm prv.usage
    of_signature o (record { usage = prv.usage; sig = sig; algo = some algo; id = prv.id })

  -- `Signer<Certificate>::sign`: the target afterwards.
  unfoldable pub sign :
      PrivateKey l.EcKey → Certificate → Bytes → l.Env → Outcome IoError Certificate
  unfolding signed is_empty
  sign prv target uid env =
      if is_empty target.sig0
      then (do s ← signed prv target.body uid env; ok (record target { sig0 = s }))
      else if is_empty target.sig1
      then (do s ← signed prv target.body uid env; ok (record target { sig1 = s }))
      else err (of_kind invalid_input)

-- The user id given, or the name of the usage.
unfoldable pub chosen_uid : Usage → Option Bytes → Outcome IoError Bytes
chosen_uid u none = usage_name u
chosen_uid u (some value) = ok value

module _ (l : Sm2Lib) where
  -- `key::PubKey::generate`
  unfoldable pub generate_key :
      Usage → Option Bytes → l.Env → Outcome IoError (PubKey × PrivateKey l.EcKey)
  generate_key u id env = do
    algo ← usage_algorithm u
    (key, prv) ← Sm2.generate l sm2_256 env
    hash ← algorithm_digest algo
    ok (
      record { usage = u; algo = algo; key = key },
      record { usage = u; key = prv; id = id; hash = hash },
    )

  -- `Body::generate`
  unfoldable pub generate_body :
      Usage → Option Bytes → l.Env → Outcome IoError (Body × PrivateKey l.EcKey)
  unfolding chosen_uid generate_key
  generate_body u given env = do
    uid ← chosen_uid u given
    uid_size ← if ltb (length uid) (2 ^ 16) then ok (length uid) else err (of_kind invalid_input)
    (pubkey, prv) ← generate_key u none env
    ok (
      record {
        ver = 1;
        info = record {
          firmware = record { major = 0; minor = 0 };
          reserved1 = 0;
          pubkey = pubkey;
          uid_size = uid_size;
          user_id = resize uid 254 0;
          sid = replicate 16 0;
          reserved2 = replicate 608 0;
        };
      },
      prv,
    )

  -- `Certificate::generate`
  unfoldable pub generate :
      Usage → Option Bytes → l.Env → Outcome IoError (Certificate × PrivateKey l.EcKey)
  unfolding generate_body no_signature
  generate u uid env = do
    (b, prv) ← generate_body u uid env
    ok (record { body = b; sig0 = no_signature; sig1 = no_signature }, prv)
