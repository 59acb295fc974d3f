-- ===== src/Session/Steps.antt =====
-- src/session/mod.rs: the states of a session, from one to the next, and the secrets at their end.
use csv_rs.Base.{
  List, subst, ◌%◌, ◌^◌, ◌≡◌, refl, sym, ap, ◌∙◌, Bytes, [], ◌∷◌, ◌++◌, length, ok, >>=-eq-ok,
  ok_injective,
}
use csv_rs.Version.{Build}
use csv_rs.Util.Memory.{le_bytes}
use csv_rs.Crypto.Encrypt.{xor_bytes, xor_bytes_twice, length-xor_bytes}
use csv_rs.Api.Launch.Policy.{Policy}
use csv_rs.Api.Launch.Secret.{Measurement, HeaderFlags, Secret}
use csv_rs.Session.Key.{Key}
use csv_rs.Session.Symm.{SymmLib, SymmLaws}
use csv_rs.Session.Mac.{sign_into-mac}
use csv_rs.Session.Channel.{Session, Initialized, initialized}
use csv_rs.Session.Attest as Attest

module _ (y : SymmLib) where
  -- A session in one of its states.
  pub data Stage : Type 0 where
    begun : Session Initialized → Stage
    measuring : Session (Attest.Measuring y) → Stage
    verified : Session (Attest.Verified y) → Stage

  -- What every state has.
  pub record Held : Type 0 where
    pub policy : Policy
    pub tek : Key
    pub tik : Key

  abbrev pub held : {T : Type 0} → Session T → Held
  held s = record { policy = s.policy; tek = s.tek; tik = s.tik }

  abbrev pub held_by : Stage → Held
  held_by (begun s) = held s
  held_by (measuring s) = held s
  held_by (verified s) = held s

  -- One call on a session that succeeded.
  pub data Step : Stage → Stage → Type 0 where
    measure :
        {s : Session Initialized} {t : Session (Attest.Measuring y)}
        → Attest.measure y s ≡ ok t
        → Step (begun s) (measuring t)
    verify :
        {s : Session Initialized} {t : Session (Attest.Verified y)} (digest : Bytes) (build : Build)
        (msr : Measurement)
        → Attest.verify y s digest build msr ≡ ok t
        → Step (begun s) (verified t)
    mock_verify :
        {s : Session Initialized} {t : Session (Attest.Verified y)} (msr : Measurement)
        → Attest.mock_verify y s msr ≡ ok t
        → Step (begun s) (verified t)
    update_data :
        {s t : Session (Attest.Measuring y)} (added : Bytes)
        → Attest.update_data y s added ≡ ok t
        → Step (measuring s) (measuring t)
    verify_measured :
        {s : Session (Attest.Measuring y)} {t : Session (Attest.Verified y)} (build : Build)
        (msr : Measurement)
        → Attest.verify_measured y s build msr ≡ ok t
        → Step (measuring s) (verified t)
    verify_with_digest :
        {s : Session (Attest.Measuring y)} {t : Session (Attest.Verified y)} (build : Build)
        (msr : Measurement) (digest : Bytes)
        → Attest.verify_with_digest y s build msr digest ≡ ok t
        → Step (measuring s) (verified t)

  pub data Steps : Stage → Stage → Type 0 where
    none_yet : {a : Stage} → Steps a a
    one_more : {a b c : Stage} → Steps a b → Step b c → Steps a c

  -- The data that the calls have added to the measurement, in order.
  abbrev pub added_by : {a b : Stage} → Step a b → List Bytes
  added_by (measure e) = []
  added_by (verify digest build msr e) = []
  added_by (mock_verify msr e) = []
  added_by (update_data added e) = added ∷ []
  added_by (verify_measured build msr e) = []
  added_by (verify_with_digest build msr digest e) = []

  abbrev pub all_added : {a b : Stage} → Steps a b → List Bytes
  all_added none_yet = []
  all_added (one_more before step) = all_added before ++ added_by step

  -- A hasher that was fed these parts, one after the other.
  pub data Fed : List Bytes → y.Hasher → Type 0 where
    fresh : {h : y.Hasher} → y.hasher ≡ ok h → Fed [] h
    fed :
        {parts : List Bytes} {h h' : y.Hasher} {part : Bytes}
        → Fed parts h
        → y.hash_update h part ≡ ok h'
        → Fed (parts ++ (part ∷ [])) h'

  -- A session before its measurement has added nothing; a measuring one has hashed just what was added.
  abbrev pub Measures : List Bytes → Stage → Type 0
  Measures parts (begun s) = parts ≡ []
  Measures parts (measuring s) = Fed parts s.state.hash
  Measures parts (verified s) = Unit

  held_step : {a b : Stage} → Step a b → held_by b ≡ held_by a
  unfolding Attest.measure Attest.verify Attest.mock_verify Attest.update_data
      Attest.verify_measured Attest.verify_with_digest
  held_step (measure e) =
      let (h, new, e₁) = >>=-eq-ok y.hasher _ e in sym (ap held (ok_injective e₁))
  held_step (verify digest build msr e) = sym (ap held (ok_injective e))
  held_step (mock_verify msr e) = sym (ap held (ok_injective e))
  held_step (update_data {s} added e) =
      let (h, new, e₁) = >>=-eq-ok (y.hash_update s.state.hash added) _ e in
      sym (ap held (ok_injective e₁))
  held_step (verify_measured {s} build msr e) =
      let (h, new, e₁) = >>=-eq-ok (y.hash_finish s.state.hash) _ e in
      sym (ap held (ok_injective e₁))
  held_step (verify_with_digest build msr digest e) = sym (ap held (ok_injective e))

  Measures-step :
      {a b : Stage} (parts : List Bytes) (step : Step a b)
      → Measures parts a
      → Measures (parts ++ added_by step) b
  unfolding Attest.measure Attest.update_data
  Measures-step parts (measure e) none_added =
      let (h, new, e₁) = >>=-eq-ok y.hasher _ e in
      subst (λ t. Measures (parts ++ []) (measuring t)) (ok_injective e₁)
        (subst (λ ps. Fed (ps ++ []) h) (sym none_added) (fresh new))
  Measures-step parts (verify digest build msr e) before = tt
  Measures-step parts (mock_verify msr e) before = tt
  Measures-step parts (update_data {s} added e) before =
      let (h, new, e₁) = >>=-eq-ok (y.hash_update s.state.hash added) _ e in
      subst (λ t. Measures (parts ++ (added ∷ [])) (measuring t)) (ok_injective e₁) (fed before new)
  Measures-step parts (verify_measured build msr e) before = tt
  Measures-step parts (verify_with_digest build msr digest e) before = tt

  -- However a new session goes from state to state, it keeps its policy and its two keys, and a measuring
  -- one has hashed just the data that was added, in order.
  pub steps-Measures :
      (s : Session Initialized) {b : Stage} (steps : Steps (begun s) b)
      → (held_by b ≡ held s) × Measures (all_added steps) b
  steps-Measures s none_yet = (refl, refl)
  steps-Measures s (one_more before step) =
      let (same, parts) = steps-Measures s before in
      (held_step step ∙ same, Measures-step (all_added before) step parts)

  -- A measuring session whose digest is to be had becomes verified with whatever measurement it is given,
  -- whatever was measured and whatever build or other digest is named, just as an unmeasured one does
  -- that skips the check.
  pub verify-mock_verify :
      (self : Session (Attest.Measuring y)) (digest other : Bytes) (build : Build)
      (msr : Measurement)
      → y.hash_finish self.state.hash ≡ ok digest
      → let before : Session Initialized = record {
        policy = self.policy;
        tek = self.tek;
        tik = self.tik;
        state = initialized;
      } in
        let skipped = Attest.mock_verify y before msr in
        (Attest.verify_measured y self build msr ≡ skipped)
        × (Attest.verify_with_digest y self build msr other ≡ skipped)
        × (Attest.verify y before other build msr ≡ skipped)
  unfolding Attest.verify Attest.mock_verify Attest.verify_measured Attest.verify_with_digest
  verify-mock_verify self digest other build msr finished = (rw (finished), refl, refl)

module _ (y : SymmLib) (symm : SymmLaws y) where
  -- A secret, under a key of 16 bytes and the random 16 bytes that are drawn for it: the packet is made
  -- with the flags and those bytes; its ciphertext is as long as the secret, and unmasking it gives the
  -- secret back; and its MAC, under the integrity key, covers the byte 1, the flags, the vector, the two
  -- lengths, the ciphertext and the measurement.
  pub secret-opens :
      (self : Session (Attest.Verified y)) (flags : HeaderFlags) (plain iv : Bytes)
      → length self.tek ≡ 16
      → length iv ≡ 16
      → y.rand_bytes 5 16 ≡ ok iv
      → (s : Secret) × (Attest.secret y self flags plain ≡ ok s)
        × (s.header.flags ≡ flags)
        × (s.header.iv ≡ iv)
        × (length s.ciphertext ≡ length plain)
        × (xor_bytes (symm.stream self.tek s.header.iv (length plain)) s.ciphertext ≡ plain)
        × (s.header.mac
            ≡ symm.mac self.tik (
                (1 ∷ [])
                ++ le_bytes 4 flags
                ++ iv
                ++ le_bytes 4 (length plain % 2 ^ 32)
                ++ le_bytes 4 (length s.ciphertext % 2 ^ 32)
                ++ s.ciphertext
                ++ self.state.measurement.measure))
  unfolding Attest.secret Attest.secret_message
  secret-opens self flags plain iv size_key size_iv drawn =
      let stream = symm.stream self.tek iv (length plain) in
      let same = symm.length-stream self.tek iv (length plain) in
      let ct = xor_bytes stream plain in
      let msg = Attest.secret_message y flags iv plain ct self.state.measurement.measure in
      (
        record {
          header = record { flags = flags; iv = iv; mac = symm.mac self.tik msg };
          ciphertext = ct;
        },
        rw (
          drawn,
          symm.encrypt-stream self.tek iv plain size_key size_iv,
          sign_into-mac y symm self.tik msg,
        ),
        refl,
        refl,
        length-xor_bytes stream plain same,
        xor_bytes_twice stream plain same,
        refl,
      )
