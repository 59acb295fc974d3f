-- ===== src/Session/Start.antt =====
-- src/session/mod.rs: starting a session from a chain and from a certificate.
use csv_rs.Base.{
  ◌≡◌, ◌↔◌, refl, sym, ap, ◌∙◌, subst, true, some, Bytes, Outcome, ok, err, panicked, ◌>>=◌, ◌>>◌,
  >>=_assoc, >>=-eq-ok, ok_injective,
}
use mathlib.Core.Path.{fun_ext}
use csv_rs.Error.{IoError}
use csv_rs.Api.Launch.Policy.{Policy}
use csv_rs.OpenSsl.{BigNums, BigNumLaws, Sm2Lib, Sm2Laws, DerLaws}
use csv_rs.Crypto.{PrivateKey}
use csv_rs.Crypto.Kdf.{Sm3Lib, Sm3Laws}
use csv_rs.Crypto.Points.{CurveLib, CurveLaws}
use csv_rs.Certs.Usage as Usages
use csv_rs.Certs.Csv.Data.{Certificate}
use csv_rs.Certs.Csv.Cert.{generate}
use csv_rs.Certs.Chain as Chains
use csv_rs.Api.Launch.Session as Launch
use csv_rs.Api.Launch.SessionSign as Sign
use csv_rs.Session.Symm.{SymmLib, SymmLaws}
use csv_rs.Session.Channel.{Session, Initialized, session, guest_user_id, start, start_pdh}
use csv_rs.Session.Protected.{Sealable, Sized, Protected, session-Protected}

module _ (o : BigNums) (l : Sm2Lib) (c : CurveLib l) (m : Sm3Lib) (y : SymmLib) where
  -- The packet, checked by its own certificate.
  abbrev self_checked : Launch.Start → Outcome IoError Launch.Start
  self_checked s = do Sign.verify o l s.cert s.session; ok s

  -- The check at the end of one chain of steps stands behind the whole chain as well.
  check_last :
      (policy : Policy) (made : Outcome IoError (Certificate × PrivateKey l.EcKey))
      (key nonce iv : Outcome IoError Bytes)
      (sign : Bytes → Bytes → Bytes → PrivateKey l.EcKey → Outcome IoError Launch.Session)
      → Path
          (Outcome IoError Launch.Start)
          (do
            (crt, prv) ← made
            k ← key
            n ← nonce
            v ← iv
            s ← sign k n v prv
            Sign.verify o l crt s
            ok (record { policy = policy; cert = crt; session = s }))
          ((do
            (crt, prv) ← made
            k ← key
            n ← nonce
            v ← iv
            s ← sign k n v prv
            ok (record { policy = policy; cert = crt; session = s }))
            >>= self_checked)
  check_last policy (err e) key nonce iv sign = refl
  check_last policy panicked key nonce iv sign = refl
  check_last policy (ok pair) (err e) nonce iv sign = refl
  check_last policy (ok pair) panicked nonce iv sign = refl
  check_last policy (ok pair) (ok k) (err e) iv sign = refl
  check_last policy (ok pair) (ok k) panicked iv sign = refl
  check_last policy (ok pair) (ok k) (ok n) (err e) sign = refl
  check_last policy (ok pair) (ok k) (ok n) panicked sign = refl
  check_last policy (ok pair) (ok k) (ok n) (ok v) sign = sym (
      >>=_assoc (sign k n v pair.1)
        (λ s. Outcome.ok (record { policy = policy; cert = pair.0; session = s })) self_checked)

  -- Starting is checking the chain, starting from its certificate, and checking the packet.
  start-eq-start_pdh :
      (self : Session Initialized) (chain : Chains.Chain) (env env' env'' : l.Env)
      → start o l c m y self chain env env' env'' ≡ (
          Chains.verify o l chain >>= λ pdh.
          start_pdh o l c m y self pdh env env' env'' >>= self_checked)
  unfolding start start_pdh
  start-eq-start_pdh self chain env env' env'' =
      ap (λ next. Chains.verify o l chain >>= next)
        (fun_ext (λ pdh.
          check_last self.policy (generate l Usages.pdh (some guest_user_id) env)
            (y.rand_bytes 2 16) (y.rand_bytes 3 16) (y.rand_bytes 4 16)
            (λ key nonce iv prv. session o l c m y self nonce iv key pdh prv env' env'')))

  -- `start` gives a packet exactly if the chain is good, `start_pdh` gives the same packet for the
  -- chain's PDH certificate, and the packet's own certificate accepts the packet's session.
  pub start-iff-start_pdh :
      (self : Session Initialized) (chain : Chains.Chain) (env env' env'' : l.Env)
      (s : Launch.Start)
      → (start o l c m y self chain env env' env'' ≡ ok s) ↔ (
          (pdh : Certificate) × (Chains.verify o l chain ≡ ok pdh)
          × (start_pdh o l c m y self pdh env env' env'' ≡ ok s)
          × (Sign.verify o l s.cert s.session ≡ ok tt))
  start-iff-start_pdh self chain env env' env'' s = (
    λ e.
        let (pdh, checked, e₁) =
          >>=-eq-ok (Chains.verify o l chain) _
            (sym (start-eq-start_pdh self chain env env' env'') ∙ e) in
        let (q, made, e₂) =
          >>=-eq-ok (start_pdh o l c m y self pdh env env' env'') self_checked e₁ in
        let (done, accepted, e₃) = >>=-eq-ok (Sign.verify o l q.cert q.session) _ e₂ in
        let same : q ≡ s = ok_injective e₃ in
        (
          pdh,
          checked,
          made ∙ ap Outcome.ok same,
          subst (λ (r : Launch.Start). Sign.verify o l r.cert r.session ≡ ok tt) same accepted,
        ),
    λ (pdh, checked, made, accepted).
        start-eq-start_pdh self chain env env' env'' ∙ rw (checked, made, accepted) refl,
  )

module _ (o : BigNums) (l : Sm2Lib) (c : CurveLib l) (m : Sm3Lib) (y : SymmLib) (big : BigNumLaws o)
    (sm : Sm2Laws l) (der : DerLaws l o) (hash : Sm3Laws m) (symm : SymmLaws y)
    (curve : CurveLaws l c) where
  -- Where the random numbers are drawn and have 16 bytes, the keys have 16 bytes, the certificate for
  -- the guest is generated with memory to use its key, and the platform certificate can be encrypted
  -- to: a start packet is made, with the policy of the session and the generated certificate, which
  -- accepts the packet's session, and the session can be opened with the platform certificate's scalar.
  pub start_pdh-Protected :
      (self : Session Initialized) (key nonce iv : Bytes) (pdh crt : Certificate)
      (prv : PrivateKey l.EcKey) (p : l.Pkey) (env env' env'' : l.Env)
      (sealable : Sealable l c pdh env')
      → Sized self nonce iv key
      → y.rand_bytes 2 16 ≡ ok key
      → y.rand_bytes 3 16 ≡ ok nonce
      → y.rand_bytes 4 16 ≡ ok iv
      → generate l Usages.pdh (some guest_user_id) env ≡ ok (crt, prv)
      → l.pkey_allocated env'' ≡ true
      → l.pkey_assign prv.key ≡ some p
      → (s : Launch.Start) × (start_pdh o l c m y self pdh env env' env'' ≡ ok s)
        × (s.policy ≡ self.policy)
        × (s.cert ≡ crt)
        × Protected l c m y hash symm self nonce iv key pdh env' sealable s.session.body
        × (Sign.verify o l s.cert s.session ≡ ok tt)
  unfolding start_pdh
  start_pdh-Protected self key nonce iv pdh crt prv p env env' env'' sealable sized drawn drawn'
        drawn'' made allocated assigned =
      let (s, signs, protected, accepted) =
        session-Protected o l c m y big sm der hash symm curve self nonce iv key pdh crt prv p env
          env' env'' sealable sized made allocated assigned in
      (
        record { policy = self.policy; cert = crt; session = s },
        rw (made, drawn, drawn', drawn'', signs),
        refl,
        refl,
        protected,
        accepted,
      )
