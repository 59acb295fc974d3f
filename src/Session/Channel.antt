-- ===== src/Session/Channel.antt =====
-- src/session/mod.rs: the session that a tenant sends to the secure processor.
use csv_rs.Base.{
  ℕ, ◌+◌, ◌==◌, if◌then◌else◌, Bytes, [], ◌++◌, length, take, drop, replicate, resize, some, ascii,
  Outcome, ok, panicked, ◌>>=◌, ◌>>◌,
}
use csv_rs.Error.{IoError}
use csv_rs.OpenSsl.{BigNums, Sm2Lib}
use csv_rs.Util.{slice_to}
use csv_rs.Util.BigNum.{write_from}
use csv_rs.Crypto.{PrivateKey}
use csv_rs.Crypto.Kdf.{Sm3Lib}
use csv_rs.Crypto.Points.{CurveLib}
use csv_rs.Certs.Usage as Usages
use csv_rs.Certs.Csv.Data.{Certificate}
use csv_rs.Certs.Csv.Cert.{generate}
use csv_rs.Certs.Csv.Encrypt.{encrypt}
use csv_rs.Certs.Chain as Chains
use csv_rs.Certs.Chain.{Chain}
use csv_rs.Api.Launch.Policy.{Policy, bytes}
use csv_rs.Api.Launch.Session as Launch
use csv_rs.Api.Launch.SessionSign as Sign
use csv_rs.Session.Key.{Key, random, derive}
use csv_rs.Session.Mac.{mac}
use csv_rs.Session.Symm.{SymmLib}

-- `Session<T>`
pub record Session (T : Type 0) : Type 0 where
  pub policy : Policy
  pub tek : Key
  pub tik : Key
  pub state : T

-- `struct Initialized`
pub data Initialized : Type 0 where
  initialized : Initialized

-- `wrap[off..]`, written to.
unfoldable pub splice : Bytes → ℕ → Bytes → Outcome IoError Bytes
splice wrap off written = do rest ← write_from (drop off wrap) written; ok (take off wrap ++ rest)

abbrev pub guest_user_id : Bytes
guest_user_id = ascii "GUEST_USER_ID"

module _ (y : SymmLib) where
  -- `TryFrom<Policy>`, from the draws 0 and 1.
  unfoldable pub of_policy : Policy → Outcome IoError (Session Initialized)
  of_policy value = do
    tek ← random (y.rand_bytes 0) 16
    tik ← random (y.rand_bytes 1) 16
    ok (record { policy = value; tek = tek; tik = tik; state = initialized })

  -- The two transport keys, one behind the other, under the key encryption key.
  unfoldable pub wrap_keys : Key → Bytes → Key → Key → Outcome IoError Bytes
  unfolding splice
  wrap_keys kek iv tek tik = do
    key ← slice_to 16 kek
    crypter ← y.crypter key iv
    (c1, crypter) ← y.update crypter tek
    wrap ← splice (replicate 32 0) 0 c1
    (c2, crypter) ← y.update crypter tik
    wrap ← splice wrap (length c1) c2
    c3 ← y.finalize crypter
    wrap ← splice wrap (length c1 + length c2) c3
    if length c1 + length c2 + length c3 == 32 then ok wrap else panicked

module _ (o : BigNums) (l : Sm2Lib) (c : CurveLib l) (m : Sm3Lib) (y : SymmLib) where
  -- The body of the session, from the master secret; `env` is for the encryption.
  unfoldable pub session_body :
      Session Initialized
      → Bytes
      → Bytes
      → Key
      → Certificate
      → l.Env
      → Outcome IoError Launch.SessionBody
  session_body self nonce iv z pdh_host env = do
    master ← derive m z 32 nonce (ascii "csv-master-secret")
    kek ← derive m master 32 [] (ascii "csv-kek")
    kik ← derive m master 32 [] (ascii "csv-kik")
    wrap ← wrap_keys y kek iv self.tek self.tik
    sealed ← encrypt l c m pdh_host master env
    let ms_enc = resize sealed 256 0
    wmac ← mac y kik (iv ++ wrap)
    session_mac ← mac y self.tik (resize (bytes self.policy ++ ms_enc) 420 0)
    ok (record {
      nonce = nonce;
      wrap_tk = wrap;
      wrap_iv = iv;
      wrap_mac = wmac;
      session_mac = session_mac;
      key_id = replicate 16 0;
      rnd_pub_key_data = replicate 148 0;
      ms_enc = ms_enc;
      vm_digest = replicate 32 0;
      pubkey_digest = replicate 32 0;
      vm_id = replicate 16 0;
      vm_version = replicate 16 0;
      user_data = replicate 64 0;
    })

  -- `Session::session`; `env` is for the encryption, `env'` for the signature.
  unfoldable pub session :
      Session Initialized
      → Bytes
      → Bytes
      → Key
      → Certificate
      → PrivateKey l.EcKey
      → l.Env
      → l.Env
      → Outcome IoError Launch.Session
  session self nonce iv z pdh_host prv env env' = do
    body ← session_body self nonce iv z pdh_host env
    Sign.sign o l prv
        (record { body = body; sig = record { r = replicate 32 0; s = replicate 32 0 } })
        guest_user_id env'

  -- `Session::start_pdh`, from the draws 2 to 4 and three environments: of the generated key, of the
  -- encryption and of the signature.
  unfoldable pub start_pdh :
      Session Initialized → Certificate → l.Env → l.Env → l.Env → Outcome IoError Launch.Start
  start_pdh self pdh env env' env'' = do
    (crt, prv) ← generate l Usages.pdh (some guest_user_id) env
    share_key ← y.rand_bytes 2 16
    nonce ← y.rand_bytes 3 16
    iv ← y.rand_bytes 4 16
    s ← session self nonce iv share_key pdh prv env' env''
    ok (record { policy = self.policy; cert = crt; session = s })

  -- `Session::start`: the same behind the check of a chain, and with the session checked at the end.
  unfoldable pub start :
      Session Initialized → Chain → l.Env → l.Env → l.Env → Outcome IoError Launch.Start
  start self chain env env' env'' = do
    pdh ← Chains.verify o l chain
    (crt, prv) ← generate l Usages.pdh (some guest_user_id) env
    share_key ← y.rand_bytes 2 16
    nonce ← y.rand_bytes 3 16
    iv ← y.rand_bytes 4 16
    s ← session self nonce iv share_key pdh prv env' env''
    Sign.verify o l crt s
    ok (record { policy = self.policy; cert = crt; session = s })
