-- ===== src/Certs/Csv/Sign.antt =====
-- src/certs/csv/cert/mod.rs: signing a certificate, and checking what was signed.
use csv_rs.Base.{
  ◌-◌, lt→ltb, ◌^◌, ◌≤◌, ◌<◌, ◌≡◌, ◌⊎◌, ◌∙◌, refl, sym, ap, subst, arith, Bytes, length, take,
  resize, replicate, true, false, Option, some, none, ok, err, ◌>>=◌, >>=-eq-ok, >>=_assoc,
  resize_fill, take-append, replicate, ok_injective, ==_refl,
}
use csv_rs.Error.{of_kind, invalid_input}
use csv_rs.OpenSsl.{BigNums, BigNumLaws, Sm2Lib, Sm2Laws, DerLaws}
use csv_rs.Util.{save}
use csv_rs.Crypto.{PrivateKey, algo_agrees, id_agrees}
use csv_rs.Crypto.Verify.{Accepts}
use csv_rs.Crypto.Sm2
use csv_rs.Crypto.Ecc.{sm2_256}
use csv_rs.Crypto.Signing.{sm2_verify-sign, raw_of, of_slice-raw_of, to_vec-raw_of}
use csv_rs.Certs.Usage.{
  Usage, Algorithm, usage_algorithm, algorithm_digest, is_usage, sm2_sa, sm2_dh,
}
use csv_rs.Certs.Csv.Data.{PubKey, Body, body, Signatures, Certificate}
use csv_rs.Certs.Csv.Cert.{
  no_signature, is_empty, signed, sign, to_signature, of_signature, generate, generate_body,
  generate_key, chosen_uid, public_key,
}

-- The usages that have an algorithm are the six that fill a slot, and the algorithm is SM2's.
usage_algorithm-cases :
    (u : Usage) {a : Algorithm}
    → usage_algorithm u ≡ ok a
    → (is_usage u ≡ true) × ((a ≡ sm2_sa) ⊎ (a ≡ sm2_dh))
unfolding usage_algorithm is_usage
usage_algorithm-cases u h = (ground (arith, h), ground (arith, h))

-- A third signature is refused, whatever the key and the user id.
pub sign_full :
    (o : BigNums) (l : Sm2Lib) (prv : PrivateKey l.EcKey) (target : Certificate) (uid : Bytes)
    (env : l.Env)
    → is_empty target.sig0 ≡ false
    → is_empty target.sig1 ≡ false
    → sign o l prv target uid env ≡ err (of_kind invalid_input)
unfolding sign
sign_full o l prv target uid env full0 full1 = rw (full0, full1)

module _ (o : BigNums) (l : Sm2Lib) (big : BigNumLaws o) (sm : Sm2Laws l) (der : DerLaws l o) where
  -- What a key with memory and an assignable pair puts into a slot: its usage and algorithm, and a
  -- signature of the body that reads back.
  pub record Filled (prv : PrivateKey l.EcKey) (p : l.Pkey) (b : Body) (uid : Bytes) (env : l.Env)
      : Type 0 where
    pub slot : Signatures
    pub made : signed o l prv b uid env ≡ ok slot
    pub used : slot.usage ≡ prv.usage
    pub algorithm : usage_algorithm prv.usage ≡ ok slot.algo
    pub full : is_empty slot ≡ false
    pub reads :
        to_signature o slot
        ≡ ok (
            some (record {
              sig = l.digest_sign p uid (body.to_bytes b) env;
              usage = slot.usage;
              algo = some slot.algo;
              id = none;
            }))

  not_empty :
      (s : Signatures)
      → is_usage s.usage ≡ true
      → (s.algo ≡ sm2_sa) ⊎ (s.algo ≡ sm2_dh)
      → is_empty s ≡ false
  unfolding is_empty
  not_empty s usage algo = ground (arith, usage, algo)

  signed-Filled :
      (prv : PrivateKey l.EcKey) (p : l.Pkey) (b : Body) (uid : Bytes) (env : l.Env) (a : Algorithm)
      → usage_algorithm prv.usage ≡ ok a
      → Sm2.sign l prv.key uid (body.to_bytes b) env
        ≡ ok (l.digest_sign p uid (body.to_bytes b) env)
      → Filled prv p b uid env
  unfolding signed save of_signature to_signature
  signed-Filled prv p b uid env a algorithm written =
      let (g, parsed, printed, r_fits, s_fits) = der.digest_sign-der p uid (body.to_bytes b) env in
      let sig = l.digest_sign p uid (body.to_bytes b) env in
      let raw = raw_of o g in
      let read = of_slice-raw_of o g sig (omega arith) (omega arith) parsed in
      let back = to_vec-raw_of o g sig (omega arith) (omega arith) big printed in
      let (usage, algo) = usage_algorithm-cases prv.usage algorithm in
      let slot : Signatures = record {
        usage = prv.usage;
        algo = a;
        signature = raw;
        reserved = replicate 368 0;
      } in
      record {
        slot = slot;
        made = rw (written, algorithm, read);
        used = refl;
        algorithm = algorithm;
        full = not_empty slot usage algo;
        reads = rw (not_empty slot usage algo, back);
      }

-- The certificate of a key, for a user id.
abbrev pub certificate_of : Bytes → PubKey → Certificate
certificate_of uid key = record {
  body = record {
    ver = 1;
    info = record {
      firmware = record { major = 0; minor = 0 };
      reserved1 = 0;
      pubkey = key;
      uid_size = length uid;
      user_id = resize uid 254 0;
      sid = replicate 16 0;
      reserved2 = replicate 608 0;
    };
  };
  sig0 = no_signature;
  sig1 = no_signature;
}

-- Generating a certificate is generating a key, where the length of the user id fits its field.
pub generate-generate_key :
    (l : Sm2Lib) (u : Usage) (given : Option Bytes) (env : l.Env) (uid : Bytes)
    → chosen_uid u given ≡ ok uid
    → length uid < 2 ^ 16
    → generate l u given env ≡ (generate_key l u none env >>= λ k. ok (certificate_of uid k.0, k.1))
unfolding generate generate_body
generate-generate_key l u given env uid chosen short =
    rw (chosen, lt→ltb (length uid) (2 ^ 16) short) (>>=_assoc (generate_key l u none env) _ _)

-- The halves of a generated key.
pub record Issued (l : Sm2Lib) (env : l.Env) (u : Usage) (key : PubKey) (prv : PrivateKey l.EcKey)
    : Type 0 where
  pub private_usage : prv.usage ≡ u
  pub public_usage : key.usage ≡ u
  pub algorithm : usage_algorithm u ≡ ok key.algo
  pub pair : Sm2.generate l sm2_256 env ≡ ok (key.key, prv.key)

pub generate_key-Issued :
    (l : Sm2Lib) (u : Usage) (id : Option Bytes) (env : l.Env) {key : PubKey}
    {prv : PrivateKey l.EcKey}
    → generate_key l u id env ≡ ok (key, prv)
    → Issued l env u key prv
unfolding generate_key
generate_key-Issued l u id env {key} {prv} h =
    let algorithm = >>=-eq-ok (usage_algorithm u) _ h in
    let pair = >>=-eq-ok (Sm2.generate l sm2_256 env) _ algorithm.2 in
    let hash = >>=-eq-ok (algorithm_digest algorithm.0) _ pair.2 in
    let same : Path (PubKey × PrivateKey l.EcKey) _ (key, prv) = ok_injective hash.2 in
    subst (λ (p : PubKey × PrivateKey l.EcKey). Issued l env u p.0 p.1) same
      (record { private_usage = refl; public_usage = refl; algorithm = algorithm.1; pair = pair.1 })

pub take-resize : (uid : Bytes) → length uid ≤ 254 → take (length uid) (resize uid 254 0) ≡ uid
take-resize uid short =
    rw (resize_fill uid 254 0 short)
      (take-append (length uid) uid (replicate (254 - length uid) 0) refl)

module _ (o : BigNums) (l : Sm2Lib) (big : BigNumLaws o) (sm : Sm2Laws l) (der : DerLaws l o)
    (u : Usage) (uid : Bytes) (env env' : l.Env) (key : PubKey) (prv : PrivateKey l.EcKey)
    (p : l.Pkey) (short : length uid ≤ 254) (issued : Issued l env u key prv)
    (allocated : l.pkey_allocated env' ≡ true) (assigned : l.pkey_assign prv.key ≡ some p) where
  -- What the key fills in for a body, the certificate's key accepts.
  pub fill :
      (b : Body)
      → (f : Filled o l big sm der prv p b uid env') × Accepts l
          (public_key (certificate_of uid key))
          (body.to_bytes b)
          (take (length uid) (resize uid 254 0))
          (record {
            sig = l.digest_sign p uid (body.to_bytes b) env';
            usage = f.slot.usage;
            algo = some f.slot.algo;
            id = none;
          })
  unfolding public_key algo_agrees id_agrees
  fill b =
      let (written, good) =
        sm2_verify-sign l sm sm2_256 env env' key.key prv.key p uid (body.to_bytes b) issued.pair
          allocated assigned in
      let f =
        signed-Filled o l big sm der prv p b uid env' key.algo
          (rw issued.private_usage issued.algorithm) written in
      let same_algo : f.slot.algo ≡ key.algo =
        ok_injective
          (sym f.algorithm ∙ ap usage_algorithm issued.private_usage ∙ issued.algorithm) in
      (
        f,
        record {
          same_usage = cc (f.used, issued.private_usage, issued.public_usage);
          same_algo = rw same_algo (==_refl key.algo);
          same_id = refl;
          sm2 = rw (take-resize uid short) good;
        },
      )
