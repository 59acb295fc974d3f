-- ===== src/Session/Mac.antt =====
-- src/session/key.rs: the message authentication code under a key.
use csv_rs.Base.{Bytes, replicate, Outcome, ok, ◌>>=◌, ◌≡◌, ap, arith, append-nil}
use csv_rs.Error.{IoError}
use csv_rs.Util.BigNum.{write_from, write_from_fits}
use csv_rs.Session.Key.{Key}
use csv_rs.Session.Symm.{SymmLib, SymmLaws}

-- `Signer::sign` into an array of 32 bytes.
unfoldable pub sign_into : SymmLib → Bytes → Bytes → Outcome IoError Bytes
sign_into y key msg = do written ← y.hmac key msg; write_from (replicate 32 0) written

-- `Key::mac`
unfoldable pub mac : SymmLib → Key → Bytes → Outcome IoError Bytes
unfolding sign_into
mac y key msg = sign_into y key msg

module _ (y : SymmLib) (laws : SymmLaws y) (key msg : Bytes) where
  pub sign_into-mac : sign_into y key msg ≡ ok (laws.mac key msg)
  unfolding sign_into replicate
  sign_into-mac =
      let size = laws.length-mac key msg in
      rw
        (
          laws.hmac-mac key msg,
          write_from_fits (replicate 32 0) (laws.mac key msg) (omega (arith, size)),
          size,
        )
        (ap Outcome.ok (append-nil (laws.mac key msg)))
