-- ===== src/Crypto/Verify.antt =====
-- src/crypto/mod.rs: when `PublicKey::verify` accepts.
use csv_rs.Base.{
  some, none, ok_or, ◌>>=◌, err, panicked, ◌≢◌, ◌⊎◌, Bytes, Bool, true, ◌==◌, ◌≡◌, ◌↔◌, refl,
  Option, Outcome, ok, arith, ==_refl, Bool-cases, inl, inr,
}
use csv_rs.Error.{IoError}
use csv_rs.Util.{slice_to_within}
use csv_rs.Crypto.Ecc.{PubKey, IsPubKey, group_size}
use csv_rs.OpenSsl.{Sm2Lib}
use csv_rs.Crypto.{Signature, PublicKey, id_agrees, algo_agrees, verify}
use csv_rs.Crypto.Sm2

module _ (l : Sm2Lib) (key : PublicKey) (msg uid : Bytes) (sig : Signature) where
  -- The usages are the same, an algorithm or an id that the signature names is the key's, and SM2
  -- accepts the signature of the message.
  pub record Accepts : Type 0 where
    pub same_usage : sig.usage ≡ key.usage
    pub same_algo : algo_agrees sig.algo key.algo ≡ true
    pub same_id : id_agrees sig.id key.id ≡ true
    pub sm2 : Sm2.verify l key.key sig.sig uid msg ≡ ok true

  pub verify-eq-ok_iff : (verify l key (ok msg) uid sig ≡ ok tt) ↔ Accepts
  unfolding verify
  verify-eq-ok_iff = (
    λ h. record {
      same_usage = ground (arith, h);
      same_algo = ground (arith, h);
      same_id = ground (arith, h);
      sm2 = ground (arith, h);
    },
    λ a. rw (a.same_usage, a.same_algo, a.same_id, a.sm2, ==_refl key.usage),
  )

-- The check never panics on a key of the Rust type.
sm2_verify-ne-panicked :
    (l : Sm2Lib) (key : PubKey) (sig uid msg : Bytes)
    → IsPubKey key
    → Sm2.verify l key sig uid msg ≢ panicked
unfolding Sm2.verify group_size
sm2_verify-ne-panicked l key sig uid msg (g, (x, y)) h =
    let in_x = slice_to_within 32 key.x (omega (arith, x.size)) in
    let in_y = slice_to_within 32 key.y (omega (arith, y.size)) in
    elim (Bool-cases (key.g == 3)) [
      | inl known ↦ let after = rw (known, in_x, in_y) at h in no_panic (l.pkey_assign _) _ _ after
      | inr unknown ↦ cc (rw unknown at h)
    ]
  where
    no_panic :
        (p : Option l.Pkey) (e : IoError) (f : l.Pkey → Bool)
        → (ok_or p e >>= λ k. Outcome.ok (f k)) ≢ panicked
    no_panic none e f h = cc
    no_panic (some k) e f h = cc

module _ (l : Sm2Lib) (key : PublicKey) (msg uid : Bytes) (sig : Signature)
    (fits : IsPubKey key.key) where
  pub verify-ne-panicked : verify l key (ok msg) uid sig ≢ panicked
  unfolding verify
  verify-ne-panicked h = ground (arith, sm2_verify-ne-panicked l key.key sig.sig uid msg fits)

  -- It accepts, or it gives an error and there was nothing to accept.
  pub verify-cases :
      (verify l key (ok msg) uid sig ≡ ok tt) × Accepts l key msg uid sig
      ⊎ ((e : IoError) × (verify l key (ok msg) uid sig ≡ err e) × ¬ Accepts l key msg uid sig)
  verify-cases = go (verify l key (ok msg) uid sig) refl
    where
      go :
          (r : Outcome IoError (Unit {0}))
          → verify l key (ok msg) uid sig ≡ r
          → (verify l key (ok msg) uid sig ≡ ok tt) × Accepts l key msg uid sig
            ⊎ ((e : IoError) × (verify l key (ok msg) uid sig ≡ err e)
                × ¬ Accepts l key msg uid sig)
      go (ok _) h = inl (h, (verify-eq-ok_iff l key msg uid sig).0 h)
      go (err e) h = inr (e, h, λ a. cc (h, (verify-eq-ok_iff l key msg uid sig).1 a))
      go panicked h = absurd (verify-ne-panicked h)
