-- ===== src/Session/Filled.antt =====
-- src/session/mod.rs: the sizes of the arrays in a session that is made.
use csv_rs.Base.{
  ℕ, ◌≡◌, sym, ap, ◌∙◌, arith, ascii, Bytes, [], ◌++◌, length, take, replicate, resize, Outcome,
  ◌+◌, ◌==◌, Bool, true, false, if◌then◌else◌, panicked, drop, take-append-drop, ok, length-append,
  length-resize, length-replicate, >>=-eq-ok, ok_injective,
}
use csv_rs.Error.{IoError}
use csv_rs.Util.BigNum.{write_from, length-write_from}
use csv_rs.OpenSsl.{BigNums, Sm2Lib}
use csv_rs.Util.{save, slice_to}
use csv_rs.Crypto.{PrivateKey}
use csv_rs.Crypto.Ecdsa
use csv_rs.Crypto.Sm2
use csv_rs.Crypto.Kdf.{Sm3Lib}
use csv_rs.Crypto.Points.{CurveLib}
use csv_rs.Certs.Csv.Data.{Certificate}
use csv_rs.Certs.Csv.Encrypt.{encrypt}
use csv_rs.Api.Launch.Policy.{bytes}
use csv_rs.Api.Launch.Session as Launch
use csv_rs.Api.Launch.Session.{of_signature}
use csv_rs.Api.Launch.SessionSign as Sign
use csv_rs.Session.Key.{Key, derive}
use csv_rs.Session.Symm.{SymmLib}
use csv_rs.Session.Mac.{mac, sign_into}
use csv_rs.Session.Channel.{Session, Initialized, session, session_body, wrap_keys, splice}

-- Every array of the session has its size.
pub record IsFilled (made : Launch.Session) : Type 0 where
  pub nonce : length made.body.nonce ≡ 16
  pub wrap_tk : length made.body.wrap_tk ≡ 32
  pub wrap_iv : length made.body.wrap_iv ≡ 16
  pub wrap_mac : length made.body.wrap_mac ≡ 32
  pub session_mac : length made.body.session_mac ≡ 32
  pub key_id : length made.body.key_id ≡ 16
  pub rnd_pub_key_data : length made.body.rnd_pub_key_data ≡ 148
  pub ms_enc : length made.body.ms_enc ≡ 256
  pub vm_digest : length made.body.vm_digest ≡ 32
  pub pubkey_digest : length made.body.pubkey_digest ≡ 32
  pub vm_id : length made.body.vm_id ≡ 16
  pub vm_version : length made.body.vm_version ≡ 16
  pub user_data : length made.body.user_data ≡ 64
  pub r : length made.sig.r ≡ 32
  pub s : length made.sig.s ≡ 32

-- The bytes of such a session.
pub length-session :
    (s : Launch.Session) → IsFilled s → length (Launch.session.to_bytes s) ≡ Launch.session.size
unfolding Launch.session Launch.session_body Launch.session_sig
length-session s f =
    let b = s.body in
    let t12 = b.vm_version ++ b.user_data in
    let t11 = b.vm_id ++ t12 in
    let t10 = b.pubkey_digest ++ t11 in
    let t9 = b.vm_digest ++ t10 in
    let t8 = b.ms_enc ++ t9 in
    let t7 = b.rnd_pub_key_data ++ t8 in
    let t6 = b.key_id ++ t7 in
    let t5 = b.session_mac ++ t6 in
    let t4 = b.wrap_mac ++ t5 in
    let t3 = b.wrap_iv ++ t4 in
    let t2 = b.wrap_tk ++ t3 in
    omega (
      arith,
      length-append (b.nonce ++ t2) (s.sig.r ++ s.sig.s),
      length-append s.sig.r s.sig.s,
      length-append b.nonce t2,
      length-append b.wrap_tk t3,
      length-append b.wrap_iv t4,
      length-append b.wrap_mac t5,
      length-append b.session_mac t6,
      length-append b.key_id t7,
      length-append b.rnd_pub_key_data t8,
      length-append b.ms_enc t9,
      length-append b.vm_digest t10,
      length-append b.pubkey_digest t11,
      length-append b.vm_id t12,
      length-append b.vm_version b.user_data,
      f.nonce,
      f.wrap_tk,
      f.wrap_iv,
      f.wrap_mac,
      f.session_mac,
      f.key_id,
      f.rnd_pub_key_data,
      f.ms_enc,
      f.vm_digest,
      f.pubkey_digest,
      f.vm_id,
      f.vm_version,
      f.user_data,
      f.r,
      f.s,
    )

-- A MAC fills its array.
pub length-mac : (y : SymmLib) (key msg b : Bytes) → mac y key msg ≡ ok b → length b ≡ 32
unfolding mac sign_into
length-mac y key msg b h =
    let (written, made, rest) = >>=-eq-ok (y.hmac key msg) _ h in
    length-write_from (replicate 32 0) written b rest ∙ length-replicate {A = ℕ} 32 0

-- The numbers of a session's signature fill their arrays.
pub length-of_signature :
    (g : Ecdsa.Signature) (sig : Launch.SessionSig)
    → of_signature g ≡ ok sig
    → (length sig.r ≡ 32) × (length sig.s ≡ 32)
unfolding of_signature
length-of_signature g sig h =
    let (r, put, rest) = >>=-eq-ok (write_from (replicate 32 0) (take 32 g.r)) _ h in
    let (s, put', done) = >>=-eq-ok (write_from (replicate 32 0) (take 32 g.s)) _ rest in
    let same = ok_injective done in
    (
      ap (λ (q : Launch.SessionSig). length q.r) (sym same)
          ∙ length-write_from (replicate 32 0) _ r put
          ∙ length-replicate {A = ℕ} 32 0,
      ap (λ (q : Launch.SessionSig). length q.s) (sym same)
          ∙ length-write_from (replicate 32 0) _ s put'
          ∙ length-replicate {A = ℕ} 32 0,
    )

-- Signing leaves a body and a signature of full size.
sign-sizes :
    (o : BigNums) (l : Sm2Lib) (prv : PrivateKey l.EcKey) (target s : Launch.Session) (uid : Bytes)
    (env : l.Env)
    → Sign.sign o l prv target uid env ≡ ok s
    → (s.body ≡ target.body) × (length s.sig.r ≡ 32) × (length s.sig.s ≡ 32)
unfolding Sign.sign
sign-sizes o l prv target s uid env h =
    let (msg, saved, h₁) = >>=-eq-ok (save Launch.session_body target.body []) _ h in
    let (sig, signed, h₂) = >>=-eq-ok (Sm2.sign l prv.key uid msg env) _ h₁ in
    let (raw, parsed, h₃) = >>=-eq-ok (Ecdsa.of_slice o sig) _ h₂ in
    let (slot, put, done) = >>=-eq-ok (of_signature raw) _ h₃ in
    let (size_r, size_s) = length-of_signature raw slot put in
    let same = ok_injective done in
    (
      ap (λ (q : Launch.Session). q.body) (sym same),
      ap (λ (q : Launch.Session). length q.sig.r) (sym same) ∙ size_r,
      ap (λ (q : Launch.Session). length q.sig.s) (sym same) ∙ size_s,
    )

-- Writing from a place on keeps the length.
length-splice :
    (wrap : Bytes) (off : ℕ) (written b : Bytes)
    → splice wrap off written ≡ ok b
    → length b ≡ length wrap
unfolding splice
length-splice wrap off written b h =
    let (rest, put, done) = >>=-eq-ok (write_from (drop off wrap) written) _ h in
    let size : length rest ≡ length (drop off wrap) =
      length-write_from (drop off wrap) written rest put in
    ap length (sym (ok_injective done))
    ∙ length-append (take off wrap) rest
    ∙ ap (λ k. length (take off wrap) + k) size
    ∙ sym (length-append (take off wrap) (drop off wrap))
    ∙ ap length (take-append-drop off wrap)

-- What passed a test is what was tested.
if_ok :
    (b : Bool) (x z : Bytes)
    → Path (Outcome IoError Bytes) (if b then ok x else panicked) (ok z)
    → x ≡ z
if_ok true x z h = ok_injective h
if_ok false x z h = cc

-- The wrapped keys fill their array.
pub length-wrap_keys :
    (y : SymmLib) (kek iv tek tik b : Bytes) → wrap_keys y kek iv tek tik ≡ ok b → length b ≡ 32
unfolding wrap_keys
length-wrap_keys y kek iv tek tik b h =
    let (key, sliced, h₁) = >>=-eq-ok (slice_to 16 kek) _ h in
    let (start, starts, h₂) = >>=-eq-ok (y.crypter key iv) _ h₁ in
    let ((c1, between), first, h₃) = >>=-eq-ok (y.update start tek) _ h₂ in
    let (wrap1, spliced1, h₄) = >>=-eq-ok (splice (replicate 32 0) 0 c1) _ h₃ in
    let ((c2, after), second, h₅) = >>=-eq-ok (y.update between tik) _ h₄ in
    let (wrap2, spliced2, h₆) = >>=-eq-ok (splice wrap1 (length c1) c2) _ h₅ in
    let (c3, ends, h₇) = >>=-eq-ok (y.finalize after) _ h₆ in
    let (wrap3, spliced3, h₈) = >>=-eq-ok (splice wrap2 (length c1 + length c2) c3) _ h₇ in
    let size : length wrap3 ≡ 32 =
      length-splice wrap2 _ c3 wrap3 spliced3
      ∙ length-splice wrap1 _ c2 wrap2 spliced2
      ∙ length-splice (replicate 32 0) 0 c1 wrap1 spliced1
      ∙ length-replicate {A = ℕ} 32 0 in
    let same : wrap3 ≡ b = if_ok (length c1 + length c2 + length c3 == 32) wrap3 b h₈ in
    ap length (sym same) ∙ size

module _ (o : BigNums) (l : Sm2Lib) (c : CurveLib l) (m : Sm3Lib) (y : SymmLib) where
  -- A session that is made has arrays of their sizes, if its nonce and its vector have theirs.
  pub session-IsFilled :
      (self : Session Initialized) (nonce iv : Bytes) (z : Key) (cert : Certificate)
      (prv : PrivateKey l.EcKey) (env env' : l.Env) (s : Launch.Session)
      → length nonce ≡ 16
      → length iv ≡ 16
      → session o l c m y self nonce iv z cert prv env env' ≡ ok s
      → IsFilled s
  unfolding session session_body
  session-IsFilled self nonce iv z cert prv env env' s size_nonce size_iv h =
      let (body, builds, signs) = >>=-eq-ok (session_body o l c m y self nonce iv z cert env) _ h in
      let (same_body, size_r, size_s) = sign-sizes o l prv _ s _ env' signs in
      let (master, h₀, h₁) = >>=-eq-ok (derive m z 32 nonce (ascii "csv-master-secret")) _ builds in
      let (kek, d₁, h₂) = >>=-eq-ok (derive m master 32 [] (ascii "csv-kek")) _ h₁ in
      let (kik, d₂, h₃) = >>=-eq-ok (derive m master 32 [] (ascii "csv-kik")) _ h₂ in
      let (wrap, wraps, h₄) = >>=-eq-ok (wrap_keys y kek iv self.tek self.tik) _ h₃ in
      let (sealed, seals, h₅) = >>=-eq-ok (encrypt l c m cert master env) _ h₄ in
      let (wmac, macs, h₆) = >>=-eq-ok (mac y kik (iv ++ wrap)) _ h₅ in
      let (smac, macs', h₇) =
        >>=-eq-ok (mac y self.tik (resize (bytes self.policy ++ resize sealed 256 0) 420 0)) _ h₆ in
      let same = ok_injective h₇ ∙ sym same_body in
      let field : (f : Launch.SessionBody → Bytes) (n : ℕ)
          → length (f _) ≡ n
          → length (f s.body) ≡ n =
        λ f n size. ap (λ b. length (f b)) (sym same) ∙ size in
      record {
        nonce = field (λ b. b.nonce) 16 size_nonce;
        wrap_tk =
            field (λ b. b.wrap_tk) 32 (length-wrap_keys y kek iv self.tek self.tik wrap wraps);
        wrap_iv = field (λ b. b.wrap_iv) 16 size_iv;
        wrap_mac = field (λ b. b.wrap_mac) 32 (length-mac y kik _ wmac macs);
        session_mac = field (λ b. b.session_mac) 32 (length-mac y self.tik _ smac macs');
        key_id = field (λ b. b.key_id) 16 (length-replicate {A = ℕ} 16 0);
        rnd_pub_key_data = field (λ b. b.rnd_pub_key_data) 148 (length-replicate {A = ℕ} 148 0);
        ms_enc = field (λ b. b.ms_enc) 256 (length-resize sealed 256 0);
        vm_digest = field (λ b. b.vm_digest) 32 (length-replicate {A = ℕ} 32 0);
        pubkey_digest = field (λ b. b.pubkey_digest) 32 (length-replicate {A = ℕ} 32 0);
        vm_id = field (λ b. b.vm_id) 16 (length-replicate {A = ℕ} 16 0);
        vm_version = field (λ b. b.vm_version) 16 (length-replicate {A = ℕ} 16 0);
        user_data = field (λ b. b.user_data) 64 (length-replicate {A = ℕ} 64 0);
        r = size_r;
        s = size_s;
      }
