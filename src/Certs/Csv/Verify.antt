-- ===== src/Certs/Csv/Verify.antt =====
-- src/certs/csv/cert/mod.rs: when one certificate's key has signed another certificate.
use native.Mathlib.Decide.{dec_le}
use csv_rs.Base.{
  ℕ, ◌≤◌, ◌<◌, ◌≡◌, ◌≢◌, ◌⊎◌, inl, inr, ◌↔◌, refl, arith, Bytes, [], length, take, true, false,
  Option, none, some, Outcome, ok, panicked, >>=-eq-ok, ok_injective, ap, ◌∙◌,
}
use csv_rs.Error.{IoError}
use csv_rs.OpenSsl.{BigNums, Sm2Lib}
use csv_rs.Util.{slice_to_within, slice_to_beyond, save}
use csv_rs.Crypto.{Signature, PublicKey}
use csv_rs.Crypto.Ecc.{IsPubKey}
use csv_rs.Crypto.Verify.{Accepts, verify-cases}
use csv_rs.Certs.Csv.Data.{Certificate, body, IsCertificate, key_fits, user_id_fits}
use csv_rs.Certs.Ca.Data as Ca
use csv_rs.Certs.Ca.Cert as CaCert
use csv_rs.Certs.Csv.Cert.{
  accepts, any_signature, verify, to_signature, to_signatures, verify_by_ca, public_key, encode,
}

module _ (l : Sm2Lib) (key : PublicKey) (msg : Bytes) (n : ℕ) (user_id : Bytes) where
  -- There is a signature, and the key accepts it under the first `n` bytes of the user id.
  abbrev pub IsGood : Option Signature → Type 0
  IsGood none = ⊥
  IsGood (some sig) = Accepts l key msg (take n user_id) sig

  module _ (fits : IsPubKey key.key) (room : n ≤ length user_id) where
    accepts-cases :
        (s : Option Signature)
        → ((accepts l key (ok msg) n user_id s ≡ ok true) × IsGood s)
          ⊎ ((accepts l key (ok msg) n user_id s ≡ ok false) × ¬ IsGood s)
    unfolding accepts
    accepts-cases none = inr (refl, λ x. x)
    accepts-cases (some sig) = elim (verify-cases l key msg (take n user_id) sig fits) [
      | inl (done, good) ↦ inl (ground (arith, slice_to_within n user_id room, done), good)
      | inr (e, failed, bad) ↦ inr (ground (arith, slice_to_within n user_id room, failed), bad)
    ]

    pub any_signature-eq-ok_iff :
        (s t : Option Signature)
        → (any_signature l key (ok msg) n user_id s t ≡ ok tt) ↔ (IsGood s ⊎ IsGood t)
    unfolding any_signature
    any_signature-eq-ok_iff s t = elim (accepts-cases s) [
      | inl (first, good) ↦ (λ _. inl good, λ _. rw first)
      | inr (first, bad) ↦ elim (accepts-cases t) [
        | inl (second, good) ↦ (λ _. inr good, λ _. rw (first, second))
        | inr (second, worse) ↦ (
          λ h. cc (rw (first, second) at h),
          λ h. elim h [ inl good ↦ absurd (bad good) | inr good ↦ absurd (worse good) ],
        )
      ]
    ]

-- The key of the first certificate accepts the signature of the body of the second, under the user
-- id of the first.
abbrev pub Endorses : Sm2Lib → Certificate → Certificate → Option Signature → Type 0
Endorses l signer signee s =
    IsGood l (public_key signer) (body.to_bytes signee.body) signer.body.info.uid_size
      signer.body.info.user_id s

-- The same for a signer of the certificate authority.
abbrev pub EndorsesByCa : Sm2Lib → Ca.Certificate → Certificate → Option Signature → Type 0
EndorsesByCa l signer signee s =
    IsGood l (CaCert.public_key signer) (body.to_bytes signee.body) signer.body.uid_size
      signer.body.user_id s

-- Where both slots of the second certificate can be read, and the user id of the first claims no
-- more bytes than its array has, the check succeeds exactly if one of the two slots holds a signature
-- of the second certificate's body that the first certificate's key accepts.
pub verify-eq-ok_iff :
    (o : BigNums) (l : Sm2Lib) (signer signee : Certificate) (s t : Option Signature)
    → IsCertificate signer
    → signer.body.info.uid_size ≤ 254
    → to_signature o signee.sig0 ≡ ok s
    → to_signature o signee.sig1 ≡ ok t
    → (verify o l signer signee ≡ ok tt) ↔ (Endorses l signer signee s ⊎ Endorses l signer signee t)
unfolding verify to_signatures encode save
verify-eq-ok_iff o l signer signee s t fits room fst snd =
    rw (fst, snd)
      (any_signature-eq-ok_iff l (public_key signer) (body.to_bytes signee.body)
        signer.body.info.uid_size signer.body.info.user_id (key_fits fits)
        (omega (arith, (user_id_fits fits).size)) s t)

pub verify_by_ca-eq-ok_iff :
    (o : BigNums) (l : Sm2Lib) (signer : Ca.Certificate) (signee : Certificate)
    (s t : Option Signature)
    → Ca.IsCertificate signer
    → signer.body.uid_size ≤ 254
    → to_signature o signee.sig0 ≡ ok s
    → to_signature o signee.sig1 ≡ ok t
    → (verify_by_ca o l signer signee ≡ ok tt)
      ↔ (EndorsesByCa l signer signee s ⊎ EndorsesByCa l signer signee t)
unfolding verify_by_ca to_signatures encode save CaCert.public_key
verify_by_ca-eq-ok_iff o l signer signee s t fits room fst snd =
    rw (fst, snd)
      (any_signature-eq-ok_iff l (CaCert.public_key signer) (body.to_bytes signee.body)
        signer.body.uid_size signer.body.user_id (Ca.key_fits fits)
        (omega (arith, (Ca.user_id_fits fits).size)) s t)

-- Within its array the loop comes to an answer.
any_signature_within :
    (l : Sm2Lib) (key : PublicKey) (msg : Bytes) (n : ℕ) (user_id : Bytes) (s t : Option Signature)
    → IsPubKey key.key
    → n ≤ length user_id
    → any_signature l key (ok msg) n user_id s t ≢ panicked
unfolding any_signature
any_signature_within l key msg n user_id s t fits room h =
    elim (accepts-cases l key msg n user_id fits room s) [
      | inl (first, good) ↦ cc (rw first at h)
      | inr (first, bad) ↦ elim (accepts-cases l key msg n user_id fits room t) [
        | inl (second, good) ↦ cc (rw (first, second) at h)
        | inr (second, worse) ↦ cc (rw (first, second) at h)
      ]
    ]

-- Without a signature the loop comes to an answer, and with one and too long a claim it does not.
any_signature_long :
    (l : Sm2Lib) (key : PublicKey) (msg : Outcome IoError Bytes) (n : ℕ) (user_id : Bytes)
    (s t : Option Signature)
    → length user_id < n
    → (any_signature l key msg n user_id s t ≡ panicked) ↔ ((s ≢ none) ⊎ (t ≢ none))
unfolding any_signature accepts
any_signature_long l key msg n user_id none none beyond =
    (λ h. cc, λ h. elim h [ inl there ↦ absurd (there refl) | inr there ↦ absurd (there refl) ])
any_signature_long l key msg n user_id none (some b) beyond =
    (λ _. inr (λ h. cc), λ _. rw (slice_to_beyond n user_id beyond))
any_signature_long l key msg n user_id (some a) t beyond =
    (λ _. inl (λ h. cc), λ _. rw (slice_to_beyond n user_id beyond))

-- A certificate of the Rust type may claim a user id longer than its array of 254 bytes. Checking
-- against it a certificate whose two slots can be read panics exactly if it does claim more, and a
-- slot holds a signature.
pub verify_panics :
    (o : BigNums) (l : Sm2Lib) (signer signee : Certificate) (s t : Option Signature)
    → IsCertificate signer
    → to_signature o signee.sig0 ≡ ok s
    → to_signature o signee.sig1 ≡ ok t
    → (verify o l signer signee ≡ panicked)
      ↔ ((254 < signer.body.info.uid_size) × ((s ≢ none) ⊎ (t ≢ none)))
unfolding verify to_signatures encode save
verify_panics o l signer signee s t fits fst snd =
    let size = (user_id_fits fits).size in
    let long : 254 < signer.body.info.uid_size
        → (any_signature l (public_key signer) (encode signee []) signer.body.info.uid_size
              signer.body.info.user_id s t
            ≡ panicked)
          ↔ ((s ≢ none) ⊎ (t ≢ none)) =
      λ beyond.
        any_signature_long l (public_key signer) (encode signee []) _ _ s t
          (omega (arith, size, beyond)) in
    rw (fst, snd)
      (
        λ h. elim (dec_le signer.body.info.uid_size 254) [
          | yes room ↦ absurd (
              any_signature_within l (public_key signer) (body.to_bytes signee.body) _ _ s t
                (key_fits fits) (omega (arith, size, room)) h)
          | no over ↦ (omega (arith, over), (long (omega (arith, over))).0 h)
        ],
        λ (beyond, there). (long beyond).1 there,
      )

-- With too long a claim the loop accepts nothing.
any_signature-beyond_ne_ok :
    (l : Sm2Lib) (key : PublicKey) (msg : Outcome IoError Bytes) (n : ℕ) (user_id : Bytes)
    (s t : Option Signature)
    → length user_id < n
    → any_signature l key msg n user_id s t ≢ ok tt
unfolding any_signature accepts
any_signature-beyond_ne_ok l key msg n user_id none none h e = cc
any_signature-beyond_ne_ok l key msg n user_id none (some b) h e =
    cc (rw (slice_to_beyond n user_id h) at e)
any_signature-beyond_ne_ok l key msg n user_id (some a) t h e =
    cc (rw (slice_to_beyond n user_id h) at e)

-- The first certificate signed the second: the claim of the user id is in range, both slots can be
-- read, and one of them holds a signature that the first certificate's key accepts.
pub record Endorsed (o : BigNums) (l : Sm2Lib) (signer signee : Certificate) : Type 0 where
  pub room : signer.body.info.uid_size ≤ 254
  pub s : Option Signature
  pub t : Option Signature
  pub read0 : to_signature o signee.sig0 ≡ ok s
  pub read1 : to_signature o signee.sig1 ≡ ok t
  pub good : Endorses l signer signee s ⊎ Endorses l signer signee t

pub record EndorsedByCa (o : BigNums) (l : Sm2Lib) (signer : Ca.Certificate) (signee : Certificate)
    : Type 0 where
  pub room : signer.body.uid_size ≤ 254
  pub s : Option Signature
  pub t : Option Signature
  pub read0 : to_signature o signee.sig0 ≡ ok s
  pub read1 : to_signature o signee.sig1 ≡ ok t
  pub good : EndorsesByCa l signer signee s ⊎ EndorsesByCa l signer signee t

-- A successful check has a user id in range.
room_of_ok :
    (l : Sm2Lib) (key : PublicKey) (msg : Outcome IoError Bytes) (n : ℕ) (user_id : Bytes)
    (s t : Option Signature)
    → length user_id ≡ 254
    → any_signature l key msg n user_id s t ≡ ok tt
    → n ≤ 254
room_of_ok l key msg n user_id s t size e = elim (dec_le n 254) [
  | yes p ↦ p
  | no p ↦ absurd (any_signature-beyond_ne_ok l key msg n user_id s t (omega arith) e)
]

module _ (o : BigNums) where
  -- Both signatures are there exactly where each is.
  to_signatures-eq-ok :
      (c : Certificate) (pair : Option Signature × Option Signature)
      → to_signatures o c ≡ ok pair
      → (to_signature o c.sig0 ≡ ok pair.0) × (to_signature o c.sig1 ≡ ok pair.1)
  unfolding to_signatures
  to_signatures-eq-ok c pair h =
      let (s, read0, rest) = >>=-eq-ok (to_signature o c.sig0) _ h in
      let (t, read1, done) = >>=-eq-ok (to_signature o c.sig1) _ rest in
      let same : (s, t) ≡ pair = ok_injective done in
      (
        read0 ∙ ap (λ (q : Option Signature × Option Signature). Outcome.ok q.0) same,
        read1 ∙ ap (λ (q : Option Signature × Option Signature). Outcome.ok q.1) same,
      )

module _ (o : BigNums) (l : Sm2Lib) where
  pub verify-iff-Endorsed :
      (signer signee : Certificate)
      → IsCertificate signer
      → (verify o l signer signee ≡ ok tt) ↔ Endorsed o l signer signee
  unfolding verify
  verify-iff-Endorsed signer signee fits = (
    λ h.
        let ((s, t), reads, loop) = >>=-eq-ok (to_signatures o signee) _ h in
        let (read0, read1) = to_signatures-eq-ok o signee (s, t) reads in
        let room =
          room_of_ok l _ _ signer.body.info.uid_size signer.body.info.user_id s t
            (user_id_fits fits).size loop in
        record {
          room = room;
          s = s;
          t = t;
          read0 = read0;
          read1 = read1;
          good = (verify-eq-ok_iff o l signer signee s t fits room read0 read1).0 h;
        },
    λ e. (verify-eq-ok_iff o l signer signee e.s e.t fits e.room e.read0 e.read1).1 e.good,
  )

  pub verify_by_ca-iff-EndorsedByCa :
      (signer : Ca.Certificate) (signee : Certificate)
      → Ca.IsCertificate signer
      → (verify_by_ca o l signer signee ≡ ok tt) ↔ EndorsedByCa o l signer signee
  unfolding verify_by_ca
  verify_by_ca-iff-EndorsedByCa signer signee fits = (
    λ h.
        let ((s, t), reads, loop) = >>=-eq-ok (to_signatures o signee) _ h in
        let (read0, read1) = to_signatures-eq-ok o signee (s, t) reads in
        let room =
          room_of_ok l _ _ signer.body.uid_size signer.body.user_id s t (Ca.user_id_fits fits).size
            loop in
        record {
          room = room;
          s = s;
          t = t;
          read0 = read0;
          read1 = read1;
          good = (verify_by_ca-eq-ok_iff o l signer signee s t fits room read0 read1).0 h;
        },
    λ e. (verify_by_ca-eq-ok_iff o l signer signee e.s e.t fits e.room e.read0 e.read1).1 e.good,
  )
