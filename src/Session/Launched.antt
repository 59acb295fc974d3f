-- ===== src/Session/Launched.antt =====
-- src/session/mod.rs and src/api/launch/mod.rs: a start packet on its way from the tenant to the kernel.
use csv_rs.Base.{
  refl, ◌≡◌, sym, ap, ◌∙◌, subst, arith, true, some, Bytes, ◌∷◌, length, ok, >>=-eq-ok,
  ok_injective,
}
use csv_rs.OpenSsl.{BigNums, BigNumLaws, Sm2Lib, Sm2Laws, DerLaws}
use csv_rs.Util.Heap.{Heap}
use csv_rs.Crypto.{PrivateKey}
use csv_rs.Crypto.Kdf.{Sm3Lib, Sm3Laws}
use csv_rs.Crypto.Points.{CurveLib, CurveLaws}
use csv_rs.Certs.Usage as Usages
use csv_rs.Certs.Csv.Data.{Certificate, certificate, IsCertificate, certificate-IsFaithful}
use csv_rs.Certs.Csv.Cert.{generate}
use csv_rs.Certs.Chain.{Chain}
use csv_rs.Certs.Trust.{AreCertificates, Trusted, verify-iff-Trusted}
use csv_rs.Api.Launch.Policy.{IsPolicy}
use csv_rs.Api.Launch.Session as Packets
use csv_rs.Api.Launch.SessionSign as Sign
use csv_rs.Api.Launch.Command.{Command, Kernel}
use csv_rs.Api.Launch.Launcher as Launch
use csv_rs.Api.Launch.Launcher.{Launcher, New, Places}
use csv_rs.Api.Launch.Watch.{Seen, watching}
use csv_rs.Api.Launch.Delivery.{Apart, Delivered, start-Delivered_sized}
use csv_rs.Session.Symm.{SymmLib, SymmLaws}
use csv_rs.Session.Channel.{Session, Initialized, session, start_pdh, start, guest_user_id}
use csv_rs.Session.Protected.{Sealable, Sized, Protected}
use csv_rs.Certs.Csv.Typed.{generate-IsCertificate}
use csv_rs.Session.Octets.{OctetLaws, guest_user_id-IsBytes}
use csv_rs.Session.Start.{start_pdh-Protected, start-iff-start_pdh}
use csv_rs.Session.Filled.{IsFilled, session-IsFilled, length-session}

module _ (o : BigNums) (l : Sm2Lib) (c : CurveLib l) (m : Sm3Lib) (y : SymmLib) where
  -- Where nonce and vector are drawn with 16 bytes, the packet's session has arrays of their sizes.
  start_pdh-IsFilled :
      (self : Session Initialized) (nonce iv : Bytes) (pdh : Certificate) (env env' env'' : l.Env)
      (s : Packets.Start)
      → length nonce ≡ 16
      → length iv ≡ 16
      → y.rand_bytes 3 16 ≡ ok nonce
      → y.rand_bytes 4 16 ≡ ok iv
      → start_pdh o l c m y self pdh env env' env'' ≡ ok s
      → IsFilled s.session
  unfolding start_pdh
  start_pdh-IsFilled self nonce iv pdh env env' env'' s size_nonce size_iv drawn drawn' h =
      let ((crt, prv), made, h₁) = >>=-eq-ok (generate l Usages.pdh (some guest_user_id) env) _ h in
      let (key, first, h₂) = >>=-eq-ok (y.rand_bytes 2 16) _ h₁ in
      let (n, second, h₃) = >>=-eq-ok (y.rand_bytes 3 16) _ h₂ in
      let (v, third, h₄) = >>=-eq-ok (y.rand_bytes 4 16) _ h₃ in
      let (made_session, signs, done) =
        >>=-eq-ok (session o l c m y self n v key pdh prv env' env'') _ h₄ in
      subst IsFilled (ap (λ (q : Packets.Start). q.session) (ok_injective done)) (
        session-IsFilled o l c m y self n v key pdh prv env' env'' made_session
          (ap length (ok_injective (sym second ∙ drawn)) ∙ size_nonce)
          (ap length (ok_injective (sym third ∙ drawn')) ∙ size_iv) signs)

module _ (o : BigNums) (l : Sm2Lib) (c : CurveLib l) (m : Sm3Lib) (y : SymmLib) (big : BigNumLaws o)
    (sm : Sm2Laws l) (der : DerLaws l o) (hash : Sm3Laws m) (symm : SymmLaws y)
    (octets : OctetLaws l c m y) (curve : CurveLaws l c) where
  -- Where the random numbers are drawn and have 16 bytes, the keys have 16 bytes, the policy is one
  -- of the Rust type, as is the certificate that is generated for the guest, with memory to use its
  -- key, and the platform certificate can be encrypted to: a start packet is made, and on any
  -- kernel, for a new launcher with its objects at places apart, starting with it makes the kernel
  -- see one command more, that delivers the packet, with the policy of the session; the packet's
  -- session opens with the private scalar of the platform certificate, and the certificate in the
  -- packet accepts it.
  start_pdh-Delivered :
      (self : Session Initialized) (key nonce iv : Bytes) (pdh crt : Certificate)
      (prv : PrivateKey l.EcKey) (p : l.Pkey) (env env' env'' : l.Env)
      (sealable : Sealable l c pdh env') (k : Kernel) (at : Places) (heap : Heap)
      (new : Launcher New) (t : Seen k.State)
      → Sized self nonce iv key
      → y.rand_bytes 2 16 ≡ ok key
      → y.rand_bytes 3 16 ≡ ok nonce
      → y.rand_bytes 4 16 ≡ ok iv
      → generate l Usages.pdh (some guest_user_id) env ≡ ok (crt, prv)
      → l.pkey_allocated env'' ≡ true
      → l.pkey_assign prv.key ≡ some p
      → IsPolicy self.policy
      → IsCertificate crt
      → Apart at
      → (s : Packets.Start) × (cmd : Command) × (seen : Heap) × (start_pdh o l c m y self pdh env
            env' env''
          ≡ ok s)
        × ((Launch.start (watching k) at heap new s t).0.commands ≡ (cmd, seen) ∷ t.commands)
        × Delivered cmd seen new.csv s
        × (s.policy ≡ self.policy)
        × Protected l c m y hash symm self nonce iv key pdh env' sealable s.session.body
        × (Sign.verify o l s.cert s.session ≡ ok tt)
  start_pdh-Delivered self key nonce iv pdh crt prv p env env' env'' sealable k at heap new t sized
        drawn drawn' drawn'' made allocated assigned policy fits apart =
      let (s, starts, same_policy, same_cert, protected, accepted) =
        start_pdh-Protected o l c m y big sm der hash symm curve self key nonce iv pdh crt prv p env
          env' env'' sealable sized drawn drawn' drawn'' made allocated assigned in
      let filled =
        start_pdh-IsFilled o l c m y self nonce iv pdh env env' env'' s sized.size_nonce
          sized.size_iv drawn' drawn'' starts in
      let (cmd, seen, delivered, reads, same_raw) =
        start-Delivered_sized k at heap new s t (subst IsPolicy (sym same_policy) policy)
          (ap (λ (q : Certificate). length (certificate.to_bytes q)) same_cert
            ∙ (certificate-IsFaithful.to_bytes-IsArray crt fits).size)
          (length-session s.session filled) apart in
      (s, cmd, seen, starts, delivered, reads, same_policy, protected, accepted)

  -- Where a chain of six certificates of the Rust type is trusted, the random numbers are drawn and
  -- have 16 bytes, the keys have 16 bytes, the policy is one of the Rust type, a certificate is
  -- generated for the guest, with memory to use its key, and the chain's PDH certificate has an SM2
  -- key and its private scalar, where there is memory and the random point has coordinates of their
  -- full 32 bytes: `start` makes a start packet, and on any kernel, for a new launcher with its
  -- objects at places apart, starting with it makes the kernel see one command more, that delivers
  -- the packet, with the policy of the session; with the private scalar the packet's session opens
  -- and its MACs are checked as in `session-Protected`; and the certificate in the packet accepts
  -- it.
  pub start-Launched :
      (self : Session Initialized) (key nonce iv : Bytes) (chain : Chain) (crt : Certificate)
      (prv : PrivateKey l.EcKey) (p : l.Pkey) (env env' env'' : l.Env)
      (sealable : Sealable l c chain.csv.pdh env') (k : Kernel) (at : Places) (heap : Heap)
      (new : Launcher New) (t : Seen k.State)
      → AreCertificates chain
      → Trusted o l chain
      → Sized self nonce iv key
      → y.rand_bytes 2 16 ≡ ok key
      → y.rand_bytes 3 16 ≡ ok nonce
      → y.rand_bytes 4 16 ≡ ok iv
      → generate l Usages.pdh (some guest_user_id) env ≡ ok (crt, prv)
      → l.pkey_allocated env'' ≡ true
      → l.pkey_assign prv.key ≡ some p
      → IsPolicy self.policy
      → Apart at
      → (s : Packets.Start) × (cmd : Command) × (seen : Heap) × (start o l c m y self chain env env'
            env''
          ≡ ok s)
        × ((Launch.start (watching k) at heap new s t).0.commands ≡ (cmd, seen) ∷ t.commands)
        × Delivered cmd seen new.csv s
        × (s.policy ≡ self.policy)
        × Protected l c m y hash symm self nonce iv key chain.csv.pdh env' sealable s.session.body
        × (Sign.verify o l s.cert s.session ≡ ok tt)
  start-Launched self key nonce iv chain crt prv p env env' env'' sealable k at heap new t
        fits_chain trusted sized drawn drawn' drawn'' made allocated assigned policy apart =
      let fits =
        generate-IsCertificate l octets.bn2binpad Usages.pdh guest_user_id env (omega arith)
          (omega arith) guest_user_id-IsBytes made in
      let (s, cmd, seen, starts, delivered, reads, same_policy, protected, accepted) =
        start_pdh-Delivered self key nonce iv chain.csv.pdh crt prv p env env' env'' sealable k at
          heap new t sized drawn drawn' drawn'' made allocated assigned policy fits apart in
      let checked = (verify-iff-Trusted o l chain fits_chain chain.csv.pdh).1 (refl, trusted) in
      let started =
        (start-iff-start_pdh o l c m y self chain env env' env'' s).1
          (chain.csv.pdh, checked, starts, accepted) in
      (s, cmd, seen, started, delivered, reads, same_policy, protected, accepted)
