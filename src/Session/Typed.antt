-- ===== src/Session/Typed.antt =====
-- src/session/mod.rs: that a start packet has the values of the Rust type.
use csv_rs.Base.{
  ◌≡◌, refl, sym, ap, ◌∙◌, arith, subst, ascii, Bytes, [], ◌++◌, take, replicate, resize,
  append-nil, some, ok, ◌>>=◌, >>=_gives, ok_injective, IsByte, IsBytes, IsArray, All-take,
  zeros-IsBytes, replicate-IsArray, resize-IsArray,
}
use csv_rs.OpenSsl.{BigNums, BigNumLaws, Sm2Lib}
use csv_rs.Util.{save}
use csv_rs.Util.BigNum.{write_from, write_from-IsBytes}
use csv_rs.Crypto.{PrivateKey}
use csv_rs.Crypto.Ecdsa
use csv_rs.Crypto.Sm2
use csv_rs.Crypto.Kdf.{Sm3Lib}
use csv_rs.Crypto.Points.{CurveLib}
use csv_rs.Certs.Usage as Usages
use csv_rs.Certs.Csv.Data.{Certificate}
use csv_rs.Certs.Csv.Cert.{generate}
use csv_rs.Certs.Csv.Encrypt.{encrypt, key_encrypt}
use csv_rs.Certs.Csv.Typed.{generate-IsCertificate}
use csv_rs.Certs.Chain.{Chain}
use csv_rs.Api.Launch.Policy.{Policy, IsPolicy, bytes}
use csv_rs.Api.Launch.Session as Packets
use csv_rs.Api.Launch.Session.{
  SessionBody, SessionSig, IsSessionBody, IsSessionSig, IsSession, Start, IsStart, start-IsFaithful,
}
use csv_rs.Api.Launch.SessionLaws.{decode-iff-encode}
use csv_rs.Api.Launch.SessionSign as Sign
use csv_rs.Session.Key.{Key, derive, random}
use csv_rs.Session.Symm.{SymmLib}
use csv_rs.Session.Mac.{mac}
use csv_rs.Session.Channel.{
  Session, Initialized, of_policy, session, session_body, wrap_keys, start_pdh, start,
  guest_user_id,
}
use csv_rs.Session.Filled.{length-mac, length-wrap_keys, length-of_signature}
use csv_rs.Session.Octets.{
  guest_user_id-IsBytes, OctetLaws, derive-IsBytes, mac-IsBytes, random-IsBytes, wrap_keys-IsBytes,
  encrypt-IsBytes, of_slice-IsBytes,
}
use csv_rs.Session.Start.{start-iff-start_pdh}

-- The numbers of a session's signature are arrays of bytes.
of_signature-IsSessionSig :
    (g : Ecdsa.Signature) {sig : SessionSig}
    → IsBytes g.r
    → IsBytes g.s
    → Packets.of_signature g ≡ ok sig
    → IsSessionSig sig
unfolding Packets.of_signature
of_signature-IsSessionSig g {sig} br bs h =
    let (size_r, size_s) = length-of_signature g sig h in
    let low : (n : Bytes) (b : Bytes)
        → IsBytes n
        → write_from (replicate 32 0) (take 32 n) ≡ ok b
        → IsBytes b =
      λ n b bytes.
        write_from-IsBytes (replicate 32 0) (take 32 n) b (zeros-IsBytes 32)
          (All-take IsByte 32 n bytes) in
    let (bytes_r, bytes_s) : IsBytes sig.r × IsBytes sig.s =
      >>=_gives (write_from (replicate 32 0) (take 32 g.r)) _ h λ r put_r h₁.
        >>=_gives (write_from (replicate 32 0) (take 32 g.s)) _ h₁ λ s put_s done.
          subst (λ (q : SessionSig). IsBytes q.r × IsBytes q.s) (ok_injective done)
            (low g.r r br put_r, low g.s s bs put_s) in
    (record { size = size_r; bytes = bytes_r }, record { size = size_s; bytes = bytes_s })

module _ (o : BigNums) (l : Sm2Lib) (c : CurveLib l) (m : Sm3Lib) (y : SymmLib) (big : BigNumLaws o)
    (octets : OctetLaws l c m y) where
  mac-IsArray : (key msg : Bytes) {b : Bytes} → mac y key msg ≡ ok b → IsArray 32 b
  mac-IsArray key msg {b} h = record {
    size = length-mac y key msg b h;
    bytes = mac-IsBytes l c m y octets key msg h;
  }

  session_body-IsSessionBody :
      (self : Session Initialized) (nonce iv : Bytes) (z : Key) (pdh : Certificate) (env : l.Env)
      {body : SessionBody}
      → IsBytes self.tek
      → IsBytes self.tik
      → IsArray 16 nonce
      → IsArray 16 iv
      → session_body o l c m y self nonce iv z pdh env ≡ ok body
      → IsSessionBody body
  unfolding session_body encrypt key_encrypt
  session_body-IsSessionBody self nonce iv z pdh env tek tik fits_nonce fits_iv h =
      >>=_gives (derive m z 32 nonce (ascii "csv-master-secret")) _ h λ master derives h₁.
        >>=_gives (derive m master 32 [] (ascii "csv-kek")) _ h₁ λ kek _ h₂.
          >>=_gives (derive m master 32 [] (ascii "csv-kik")) _ h₂ λ kik _ h₃.
            >>=_gives (wrap_keys y kek iv self.tek self.tik) _ h₃ λ wrap wraps h₄.
              >>=_gives (encrypt l c m pdh master env) _ h₄ λ sealed seals h₅.
                >>=_gives (mac y kik (iv ++ wrap)) _ h₅ λ wmac macs h₆.
                  >>=_gives
                    (mac y self.tik (resize (bytes self.policy ++ resize sealed 256 0) 420 0)) _ h₆
                    λ smac macs' done. subst IsSessionBody (ok_injective done) (
                      fits_nonce,
                      (
                        record {
                          size = length-wrap_keys y kek iv self.tek self.tik wrap wraps;
                          bytes =
                              wrap_keys-IsBytes l c m y octets kek iv self.tek self.tik tek tik
                                wraps;
                        },
                        (
                          fits_iv,
                          (
                            mac-IsArray kik _ macs,
                            (
                              mac-IsArray self.tik _ macs',
                              (
                                replicate-IsArray 16,
                                (
                                  replicate-IsArray 148,
                                  (
                                    resize-IsArray sealed 256 (
                                        encrypt-IsBytes l c m y octets master _ env
                                          (derive-IsBytes l c m y octets z 32 nonce _ derives)
                                          seals),
                                    (
                                      replicate-IsArray 32,
                                      (
                                        replicate-IsArray 32,
                                        (
                                          replicate-IsArray 16,
                                          (replicate-IsArray 16, replicate-IsArray 64),
                                        ),
                                      ),
                                    ),
                                  ),
                                ),
                              ),
                            ),
                          ),
                        ),
                      ),
                    )

  sign-IsSession :
      (prv : PrivateKey l.EcKey) (target : Packets.Session) (uid : Bytes) (env : l.Env)
      {s : Packets.Session}
      → IsSessionBody target.body
      → Sign.sign o l prv target uid env ≡ ok s
      → IsSession s
  unfolding Sign.sign
  sign-IsSession prv target uid env fits h =
      >>=_gives (save Packets.session_body target.body []) _ h λ msg _ h₁.
        >>=_gives (Sm2.sign l prv.key uid msg env) _ h₁ λ sig _ h₂.
          >>=_gives (Ecdsa.of_slice o sig) _ h₂ λ raw read h₃.
            >>=_gives (Packets.of_signature raw) _ h₃ λ slot put done.
              let (br, bs) = of_slice-IsBytes o big sig read in
              subst IsSession (ok_injective done) (fits, of_signature-IsSessionSig raw br bs put)

  start_pdh-IsStart :
      (self : Session Initialized) (pdh : Certificate) (env env' env'' : l.Env) {s : Start}
      → IsPolicy self.policy
      → IsBytes self.tek
      → IsBytes self.tik
      → start_pdh o l c m y self pdh env env' env'' ≡ ok s
      → IsStart s × (s.policy ≡ self.policy)
  unfolding start_pdh session
  start_pdh-IsStart self pdh env env' env'' policy tek tik h =
      >>=_gives (generate l Usages.pdh (some guest_user_id) env) _ h λ made generates h₁.
        >>=_gives (y.rand_bytes 2 16) _ h₁ λ key _ h₂.
          >>=_gives (y.rand_bytes 3 16) _ h₂ λ nonce drawn h₃.
            >>=_gives (y.rand_bytes 4 16) _ h₃ λ iv drawn' h₄.
              >>=_gives (session o l c m y self nonce iv key pdh made.1 env' env'') _ h₄
                λ s signs done.
                  >>=_gives (session_body o l c m y self nonce iv key pdh env') _ signs
                    λ body builds signs'.
                      subst (λ (q : Start). IsStart q × (q.policy ≡ self.policy))
                        (ok_injective done)
                        (
                          (
                            policy,
                            (
                              generate-IsCertificate l octets.bn2binpad Usages.pdh guest_user_id env
                                  (omega arith) (omega arith) guest_user_id-IsBytes generates,
                              sign-IsSession made.1 _ guest_user_id env''
                                  (session_body-IsSessionBody self nonce iv key pdh env' tek tik
                                    (octets.rand_bytes 3 16 drawn) (octets.rand_bytes 4 16 drawn')
                                    builds)
                                  signs',
                            ),
                          ),
                          refl,
                        )

  -- A session made of a policy of the Rust type, started for any chain: whatever packet comes out has the
  -- policy and is of the Rust type, so what `encode` writes of it `decode` reads back, to the last byte.
  pub start-IsStart :
      (p : Policy) (chain : Chain) (env env' env'' : l.Env) (s : Start)
      → IsPolicy p
      → (of_policy y p >>= λ self. start o l c m y self chain env env' env'') ≡ ok s
      → IsStart s
        × (s.policy ≡ p)
        × (written : Bytes) × (Packets.encode s [] ≡ ok written)
        × (Packets.decode written ≡ ok (s, []))
  unfolding of_policy Packets.encode save
  start-IsStart p chain env env' env'' s policy h =
      >>=_gives (of_policy y p) _ h λ self makes starts.
        >>=_gives (random (y.rand_bytes 0) 16) _ makes λ tek drawn h₁.
          >>=_gives (random (y.rand_bytes 1) 16) _ h₁ λ tik drawn' done.
            let (pdh, _, made, _) =
              (start-iff-start_pdh o l c m y self chain env env' env'' s).0 starts in
            let (fits, same) =
              start_pdh-IsStart self pdh env env' env''
                (subst (λ (q : Session Initialized). IsPolicy q.policy) (ok_injective done) policy)
                (subst (λ (q : Session Initialized). IsBytes q.tek) (ok_injective done)
                  (random-IsBytes l c m y octets 0 16 drawn))
                (subst (λ (q : Session Initialized). IsBytes q.tik) (ok_injective done)
                  (random-IsBytes l c m y octets 1 16 drawn'))
                made in
            let written = Packets.start.to_bytes s in
            (
              fits,
              same ∙ ap (λ (q : Session Initialized). q.policy) (sym (ok_injective done)),
              written,
              refl,
              (decode-iff-encode written s [] (start-IsFaithful.to_bytes-IsArray s fits).bytes).1
                  (written, refl, sym (append-nil written), fits),
            )
