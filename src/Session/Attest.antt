-- ===== src/Session/Attest.antt =====
-- src/session/mod.rs: measuring, checking a measurement, and secrets.
use csv_rs.Base.{◌%◌, ◌^◌, Bytes, [], ◌∷◌, ◌++◌, length, Outcome, ok, ◌>>=◌}
use csv_rs.Error.{IoError}
use csv_rs.Version.{Build}
use csv_rs.Util.Memory.{le_bytes}
use csv_rs.Api.Launch.Secret.{Measurement, HeaderFlags, Secret}
use csv_rs.Session.Mac.{sign_into}
use csv_rs.Session.Symm.{SymmLib}
use csv_rs.Session.Channel.{Session, Initialized, initialized}

module _ (y : SymmLib) where
  -- `struct Measuring`
  pub record Measuring : Type 0 where
    pub hash : y.Hasher

  -- `struct Verified`
  pub record Verified : Type 0 where
    pub measurement : Measurement

  -- `Session<Initialized>::measure`
  unfoldable pub measure : Session Initialized → Outcome IoError (Session Measuring)
  measure self = do
    h ← y.hasher
    ok (record {
      policy = self.policy;
      tek = self.tek;
      tik = self.tik;
      state = record { hash = h };
    })

  -- `Session<Initialized>::verify`: the comparison with the measurement is commented out.
  unfoldable pub verify :
      Session Initialized → Bytes → Build → Measurement → Outcome IoError (Session Verified)
  verify self digest build msr = ok (record {
    policy = self.policy;
    tek = self.tek;
    tik = self.tik;
    state = record { measurement = msr };
  })

  -- `Session<Initialized>::mock_verify`
  unfoldable pub mock_verify :
      Session Initialized → Measurement → Outcome IoError (Session Verified)
  mock_verify self msr = ok (record {
    policy = self.policy;
    tek = self.tek;
    tik = self.tik;
    state = record { measurement = msr };
  })

  -- `Session<Measuring>::update_data`: the session afterwards.
  unfoldable pub update_data : Session Measuring → Bytes → Outcome IoError (Session Measuring)
  update_data self added = do
    h ← y.hash_update self.state.hash added
    ok (record self { state = record { hash = h } })

  -- `Session<Measuring>::verify_with_digest`
  unfoldable pub verify_with_digest :
      Session Measuring → Build → Measurement → Bytes → Outcome IoError (Session Verified)
  unfolding verify
  verify_with_digest self build msr digest =
      verify (record { policy = self.policy; tek = self.tek; tik = self.tik; state = initialized })
        digest build msr

  -- `Session<Measuring>::verify`
  unfoldable pub verify_measured :
      Session Measuring → Build → Measurement → Outcome IoError (Session Verified)
  unfolding verify
  verify_measured self build msr = do
    digest ← y.hash_finish self.state.hash
    verify (record { policy = self.policy; tek = self.tek; tik = self.tik; state = initialized })
        digest build msr

  -- What the MAC of a secret covers.
  unfoldable pub secret_message : HeaderFlags → Bytes → Bytes → Bytes → Bytes → Bytes
  secret_message flags iv plain ciphertext measure =
      (1 ∷ [])
      ++ le_bytes 4 flags
      ++ iv
      ++ le_bytes 4 (length plain % 2 ^ 32)
      ++ le_bytes 4 (length ciphertext % 2 ^ 32)
      ++ ciphertext
      ++ measure

  -- `Session<Verified>::secret`, from the draw 5.
  unfoldable pub secret : Session Verified → HeaderFlags → Bytes → Outcome IoError Secret
  secret self flags plain = do
    iv ← y.rand_bytes 5 16
    ciphertext ← y.encrypt self.tek iv plain
    mac ←
        sign_into y self.tik
          (secret_message flags iv plain ciphertext self.state.measurement.measure)
    ok (record { header = record { flags = flags; iv = iv; mac = mac }; ciphertext = ciphertext })
