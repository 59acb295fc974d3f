-- ===== src/Session/Protected.antt =====
-- src/session/mod.rs: what stands in a session for a launch, and who can read and check it.
use csv_rs.Base.{
  ℕ, ◌+◌, ◌-◌, ◌≡◌, refl, sym, ap, ◌∙◌, arith, ascii, true, some, Bytes, [], ◌++◌, length, take,
  replicate, resize, ok, resize_fill, length-append, subst, length-resize,
}
use csv_rs.Version.{version}
use csv_rs.Util.Memory.{le_bytes}
use csv_rs.OpenSsl.{BigNums, BigNumLaws, Sm2Lib, Sm2Laws, DerLaws}
use csv_rs.Crypto.{PrivateKey}
use csv_rs.Crypto.Ecc.{IsPubKey, sm2_256}
use csv_rs.Crypto.Sm2.{ec_key}
use csv_rs.Crypto.Kdf.{Sm3Lib, Sm3Laws}
use csv_rs.Crypto.Points.{CurveLib, CurveLaws, Points, points}
use csv_rs.Crypto.Encrypt.{xor_bytes, encrypt-Sealed}
use csv_rs.Crypto.Owner.{Readable, Sealed-Readable}
use csv_rs.Certs.Usage as Usages
use csv_rs.Certs.Csv.Data.{Certificate}
use csv_rs.Certs.Csv.Cert.{generate, public_key, chosen_uid}
use csv_rs.Certs.Csv.Encrypt.{encrypt, key_encrypt}
use csv_rs.Api.Launch.Policy.{Policy, bytes, policy}
use csv_rs.Api.Launch.Session as Launch
use csv_rs.Api.Launch.SessionSign as Sign
use csv_rs.Session.Key.{Key, derive}
use csv_rs.Session.Symm.{SymmLib, SymmLaws}
use csv_rs.Session.Mac.{mac, sign_into-mac}
use csv_rs.Session.Channel.{Session, Initialized, session, session_body, guest_user_id}
use csv_rs.Session.Wrap.{wrap_keys-Wrapped, derive_short}
use mathlib.Core.List.{reverse}

-- The key of a certificate, as OpenSSL is given it.
abbrev pub raw_key : (l : Sm2Lib) → Certificate → l.EcKey
raw_key l cert =
    ec_key l (reverse (take 32 cert.body.info.pubkey.key.x))
      (reverse (take 32 cert.body.info.pubkey.key.y))

-- What encrypting to a certificate needs: an SM2 key with its private scalar `d`, memory, and a random
-- point whose coordinates have their full 32 bytes.
pub record Sealable (l : Sm2Lib) (c : CurveLib l) (cert : Certificate) (env : l.Env) : Type 0 where
  pub d : l.Number
  pub own : c.Point
  pub p : Points l.Number
  pub x2 : Bytes
  pub y2 : Bytes
  pub fits : IsPubKey cert.body.info.pubkey.key
  pub known : cert.body.info.pubkey.key.g ≡ sm2_256
  pub allocated : c.allocated env ≡ true
  pub private : c.mul_generator d ≡ some own
  pub public : c.public_point (raw_key l cert) ≡ some own
  pub points : points l c (raw_key l cert) env ≡ ok p
  pub pad_x : l.bn2binpad p.x2 32 ≡ some x2
  pub pad_y : l.bn2binpad p.y2 32 ≡ some y2
  pub size_x : length x2 ≡ 32
  pub size_y : length y2 ≡ 32
  pub full_x : length (c.bn2bin p.x1) ≡ 32
  pub full_y : length (c.bn2bin p.y1) ≡ 32

module _ (l : Sm2Lib) (c : CurveLib l) (m : Sm3Lib) (y : SymmLib) (hash : Sm3Laws m)
    (symm : SymmLaws y) where
  -- Both sides derive the master secret and from it the two keys over the transport keys. With the
  -- private scalar of the certificate's key the master secret is read from what is sent, the key
  -- encryption key opens the transport keys, and the two MACs cover the wrapped keys, and policy,
  -- sealed secret and the five fields behind it.
  pub record Protected (self : Session Initialized) (nonce iv z : Bytes) (cert : Certificate)
      (env : l.Env) (sealable : Sealable l c cert env) (b : Launch.SessionBody) : Type 0 where
    pub master : Key
    pub kek : Key
    pub kik : Key
    pub ct : Bytes
    pub derives_master : derive m z 32 nonce (ascii "csv-master-secret") ≡ ok master
    pub derives_kek : derive m master 32 [] (ascii "csv-kek") ≡ ok kek
    pub derives_kik : derive m master 32 [] (ascii "csv-kik") ≡ ok kik
    pub sent_nonce : b.nonce ≡ nonce
    pub sent_iv : b.wrap_iv ≡ iv
    pub opens : xor_bytes (symm.stream (take 16 kek) iv 32) b.wrap_tk ≡ self.tek ++ self.tik
    pub wrap_checked : b.wrap_mac ≡ symm.mac kik (b.wrap_iv ++ b.wrap_tk)
    pub readable : Readable l c m hash sealable.d master ct
    pub sent_ct : b.ms_enc ≡ ct ++ replicate 127 0
    pub session_checked :
        b.session_mac
        ≡ symm.mac self.tik (
            bytes self.policy
            ++ b.ms_enc
            ++ (b.vm_digest ++ b.pubkey_digest ++ b.vm_id ++ b.vm_version ++ b.user_data))

-- Of keys, nonce and vector of 16 bytes.
pub record Sized (self : Session Initialized) (nonce iv z : Bytes) : Type 0 where
  pub size_tek : length self.tek ≡ 16
  pub size_tik : length self.tik ≡ 16
  pub size_nonce : length nonce ≡ 16
  pub size_iv : length iv ≡ 16
  pub size_z : length z ≡ 16

-- What is cut and filled up to 420 bytes is what the MAC of a session covers.
filled :
    (p ms : Bytes)
    → length p ≡ 4
    → length ms ≡ 256
    → resize (p ++ ms) 420 0
      ≡ p
        ++ ms
        ++ (replicate 32 0 ++ replicate 32 0 ++ replicate 16 0 ++ replicate 16 0 ++ replicate 64 0)
unfolding replicate
filled p ms size_p size_ms =
    resize_fill (p ++ ms) 420 0 (omega (arith, length-append p ms, size_p, size_ms))
    ∙ ap (λ t. p ++ ms ++ t)
        (ap (λ (k : ℕ). replicate k 0) {y = 160}
          (omega (arith, length-append p ms, size_p, size_ms)))

-- A policy has four bytes.
length-bytes : (p : Policy) → length (bytes p) ≡ 4
unfolding bytes policy version le_bytes
length-bytes p = refl

module _ (o : BigNums) (l : Sm2Lib) (c : CurveLib l) (m : Sm3Lib) (y : SymmLib) (hash : Sm3Laws m)
    (symm : SymmLaws y) (curve : CurveLaws l c) where
  pub session_body-Protected :
      (self : Session Initialized) (nonce iv z : Bytes) (cert : Certificate) (env : l.Env)
      (sealable : Sealable l c cert env)
      → Sized self nonce iv z
      → (b : Launch.SessionBody) × (session_body o l c m y self nonce iv z cert env ≡ ok b)
        × Protected l c m y hash symm self nonce iv z cert env sealable b
  unfolding session_body encrypt key_encrypt public_key mac
  session_body-Protected self nonce iv z cert env s sized =
      let (master, derives_master, size_master) =
        derive_short m hash z nonce (ascii "csv-master-secret") (omega (arith, sized.size_z))
          (omega (arith, sized.size_nonce)) (omega arith) in
      let (kek, derives_kek, size_kek) =
        derive_short m hash master [] (ascii "csv-kek") (omega (arith, size_master)) (omega arith)
          (omega arith) in
      let (kik, derives_kik, size_kik) =
        derive_short m hash master [] (ascii "csv-kik") (omega (arith, size_master)) (omega arith)
          (omega arith) in
      let (wrap, wraps, wrapped) =
        wrap_keys-Wrapped y symm kek iv self.tek self.tik size_kek sized.size_iv sized.size_tek
          sized.size_tik in
      let (ct, seals, sealed) =
        encrypt-Sealed l c m hash master cert.body.info.pubkey.key env s.p s.x2 s.y2 s.fits s.known
          (omega (arith, size_master)) s.allocated s.points s.pad_x s.pad_y s.size_x s.size_y
          (omega (arith, s.full_x)) (omega (arith, s.full_y)) in
      let size_ct : length ct ≡ 129 = sealed.size ∙ ap (λ (k : ℕ). 97 + k) size_master in
      let ms : resize ct 256 0 ≡ ct ++ replicate 127 0 =
        resize_fill ct 256 0 (omega (arith, size_ct))
        ∙ ap (λ (k : ℕ). ct ++ replicate (256 - k) 0) size_ct in
      (
        record {
          nonce = nonce;
          wrap_tk = wrap;
          wrap_iv = iv;
          wrap_mac = symm.mac kik (iv ++ wrap);
          session_mac = symm.mac self.tik (resize (bytes self.policy ++ resize ct 256 0) 420 0);
          key_id = replicate 16 0;
          rnd_pub_key_data = replicate 148 0;
          ms_enc = resize ct 256 0;
          vm_digest = replicate 32 0;
          pubkey_digest = replicate 32 0;
          vm_id = replicate 16 0;
          vm_version = replicate 16 0;
          user_data = replicate 64 0;
        },
        rw (
          derives_master,
          derives_kek,
          derives_kik,
          wraps,
          seals,
          sign_into-mac y symm kik (iv ++ wrap),
          sign_into-mac y symm self.tik (resize (bytes self.policy ++ resize ct 256 0) 420 0),
        ),
        record {
          master = master;
          kek = kek;
          kik = kik;
          ct = ct;
          derives_master = derives_master;
          derives_kek = derives_kek;
          derives_kik = derives_kik;
          sent_nonce = refl;
          sent_iv = refl;
          opens = wrapped.unwrap;
          wrap_checked = refl;
          readable =
              Sealed-Readable l c m hash curve s.d s.own (raw_key l cert) env s.p s.x2 s.y2 master
                ct s.private s.public s.points s.pad_x s.pad_y s.full_x s.full_y sealed;
          sent_ct = ms;
          session_checked = ap (symm.mac self.tik) (
              filled (bytes self.policy) (resize ct 256 0) (length-bytes self.policy)
                (length-resize ct 256 0));
        },
      )

module _ (o : BigNums) (l : Sm2Lib) (c : CurveLib l) (m : Sm3Lib) (y : SymmLib) (big : BigNumLaws o)
    (sm : Sm2Laws l) (der : DerLaws l o) (hash : Sm3Laws m) (symm : SymmLaws y)
    (curve : CurveLaws l c) where
  -- A session of keys of 16 bytes, with a nonce, a vector and a shared secret of 16 bytes, for a
  -- platform certificate with an SM2 key and its private scalar, where there is memory and the
  -- random point has coordinates of their full 32 bytes, and signed with the private key of a PDH
  -- certificate generated for the user "GUEST_USER_ID", with memory to use it: it is made; with the
  -- private scalar the master secret is read from it, the keys derived from that secret open the
  -- transport keys and check their MAC, and the integrity key among them that of the session; and
  -- the generated certificate accepts it.
  pub session-Protected :
      (self : Session Initialized) (nonce iv z : Bytes) (cert crt : Certificate)
      (prv : PrivateKey l.EcKey) (p : l.Pkey) (made env env' : l.Env)
      (sealable : Sealable l c cert env)
      → Sized self nonce iv z
      → generate l Usages.pdh (some guest_user_id) made ≡ ok (crt, prv)
      → l.pkey_allocated env' ≡ true
      → l.pkey_assign prv.key ≡ some p
      → (s : Launch.Session) × (session o l c m y self nonce iv z cert prv env env' ≡ ok s)
        × Protected l c m y hash symm self nonce iv z cert env sealable s.body
        × (Sign.verify o l crt s ≡ ok tt)
  unfolding session chosen_uid
  session-Protected self nonce iv z cert crt prv p made env env' sealable sized generated allocated
        assigned =
      let (b, builds, protected) =
        session_body-Protected o l c m y hash symm curve self nonce iv z cert env sealable sized in
      let signed =
        Sign.verify-sign_session o l big sm der (some guest_user_id) guest_user_id made env' crt prv
          p (record { body = b; sig = record { r = replicate 32 0; s = replicate 32 0 } }) refl
          (omega arith) generated allocated assigned in
      (
        signed.after,
        rw (builds) signed.signs,
        subst (Protected l c m y hash symm self nonce iv z cert env sealable) (sym signed.same_body)
            protected,
        signed.accepted,
      )
