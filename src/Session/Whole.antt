-- ===== src/Session/Whole.antt =====
-- src/session/mod.rs and src/api/launch/mod.rs: a launch from its start to its end, with a tenant's session.
use csv_rs.Base.{
  ℕ, ◌%◌, ◌^◌, ◌≡◌, refl, ap, ◌∙◌, Bytes, List, [], ◌∷◌, ◌++◌, length, none, Outcome, ok,
}
use csv_rs.Error.{IoError}
use csv_rs.Util.Memory.{le_bytes}
use csv_rs.Util.Heap.{Heap}
use csv_rs.Version.{Build}
use csv_rs.Crypto.Encrypt.{xor_bytes}
use csv_rs.Api.Launch.Session.{Start}
use csv_rs.Api.Launch.Secret.{HeaderFlags, Secret}
use csv_rs.Api.Launch.Command.{
  Command, KvmEncRegion, Kernel, issue, answered, register, accepted, and_then, command, enc_region,
}
use csv_rs.Api.Launch.Launcher as Launch
use csv_rs.Api.Launch.Launcher.{Launcher, New, Started, Measured, Places, Slice}
use csv_rs.Api.Launch.Watch.{Seen, watching}
use csv_rs.Session.Symm.{SymmLib, SymmLaws}
use csv_rs.Session.Channel.{Session, Initialized}
use csv_rs.Session.Attest as Attest
use csv_rs.Session.Steps.{secret-opens}

-- A kernel that refuses no command.
abbrev pub Accepts : Kernel → Type 0
Accepts k =
    (t : k.State) (vm_fd : ℕ) (cmd : Command) (h : Heap) → (k.op t vm_fd cmd h).failure ≡ none

-- A kernel that refuses no region.
abbrev pub Registers : Kernel → Type 0
Registers k = (t : k.State) (vm_fd : ℕ) (area : KvmEncRegion) → (k.reg_region t vm_fd area).1 ≡ none

abbrev pub codes : List (Command × Heap) → List ℕ
codes [] = []
codes ((cmd, heap) ∷ rest) = cmd.code ∷ codes rest

module _ (k : Kernel) (at : Places) (heap : Heap) (y : SymmLib) (symm : SymmLaws y) where
  -- A launch that starts, takes data, is measured, takes a secret and is finished, with all that is made on
  -- the way: the secret is bound to the measurement that the launcher got, and opens under the key of the
  -- session; the launch ends with the handle of its start; and the kernel has seen the five commands in
  -- this order.
  pub record Whole (self : Session Initialized) (new : Launcher New) (packet : Start)
      (added : Slice) (digest : Bytes) (build : Build) (flags : HeaderFlags) (plain : Bytes)
      (guest : ℕ) (before : Seen k.State) : Type 0 where
    pub started : Launcher Started
    pub measured : Launcher Measured
    pub verified : Session (Attest.Verified y)
    pub sealed : Secret
    pub after_start : Seen k.State
    pub after_data : Seen k.State
    pub after_measure : Seen k.State
    pub after_inject : Seen k.State
    pub after : Seen k.State
    pub starts : Launch.start (watching k) at heap new packet before ≡ (after_start, ok started)
    pub updates :
        Launch.update_data (watching k) at heap started added after_start ≡ (after_data, ok tt)
    pub measures :
        Launch.measure (watching k) at heap started after_data ≡ (after_measure, ok measured)
    pub verifies : Attest.verify y self digest build (Launch.measurement measured) ≡ ok verified
    pub seals : Attest.secret y verified flags plain ≡ ok sealed
    pub injects :
        Launch.inject (watching k) at heap measured sealed guest after_measure
        ≡ (after_inject, ok tt)
    pub finishes :
        Launch.finish (watching k) at heap measured after_inject ≡ (after, ok started.state.handle)
    pub opens :
        xor_bytes (symm.stream self.tek sealed.header.iv (length plain)) sealed.ciphertext ≡ plain
    pub covers :
        sealed.header.mac
        ≡ symm.mac self.tik (
            (1 ∷ [])
            ++ le_bytes 4 flags
            ++ sealed.header.iv
            ++ le_bytes 4 (length plain % 2 ^ 32)
            ++ le_bytes 4 (length sealed.ciphertext % 2 ^ 32)
            ++ sealed.ciphertext
            ++ measured.state.measured.measure)
    pub order : codes after.commands ≡ 7 ∷ 5 ∷ 6 ∷ 3 ∷ 2 ∷ codes before.commands

  module _ (accepts : Accepts k) (registers : Registers k) where
    accepted_issue :
        (vm_fd : ℕ) (cmd : Command) (given : Heap) (t : Seen k.State)
        → issue (watching k) vm_fd cmd given t
          ≡ (((watching k).op t vm_fd cmd given).state, ok ((k.op t.state vm_fd cmd given).heap))
    unfolding issue answered
    accepted_issue vm_fd cmd given t = rw (accepts t.state vm_fd cmd given)

    -- A call that the kernel accepts, and the command that it makes.
    abbrev Made : {A : Type 0} → Seen k.State → Seen k.State × Outcome IoError A → A → ℕ → Type 0
    Made before call a code =
        (after : Seen k.State) × (call ≡ (after, ok a))
        × (codes after.commands ≡ code ∷ codes before.commands)

    made :
        {A : Type 0} (vm_fd : ℕ) (cmd : Command) (given : Heap) (make : Heap → A) (t : Seen k.State)
        → Made t
            (and_then (issue (watching k) vm_fd cmd given t) (λ h s. (s, Outcome.ok (make h))))
            (make (k.op t.state vm_fd cmd given).heap)
            cmd.code
    made vm_fd cmd given make t = (
      ((watching k).op t vm_fd cmd given).state,
      rw (accepted_issue vm_fd cmd given t) refl,
      refl,
    )

    start_lem :
        (new : Launcher New) (packet : Start) (t : Seen k.State)
        → (l : Launcher Started) × Made t (Launch.start (watching k) at heap new packet t) l 2
    unfolding Launch.start command
    start_lem new packet t = (_, made new.vm_fd _ _ _ t)

    registered :
        (vm_fd : ℕ) (area : KvmEncRegion) (t : Seen k.State)
        → register (watching k) vm_fd area t ≡ (((watching k).reg_region t vm_fd area).0, ok tt)
    unfolding register accepted
    registered vm_fd area t = rw (registers t.state vm_fd area)

    update_data_lem :
        (l : Launcher Started) (added : Slice) (t : Seen k.State)
        → Made t (Launch.update_data (watching k) at heap l added t) tt 3
    unfolding Launch.update_data command
    update_data_lem l added t =
        let area = enc_region added.addr added.bytes in
        rw (registered l.vm_fd area t)
          (made l.vm_fd _ _ _ ((watching k).reg_region t l.vm_fd area).0)

    measure_lem :
        (l : Launcher Started) (t : Seen k.State)
        → (q : Launcher Measured) × Made t (Launch.measure (watching k) at heap l t) q 6
          × (q.state.handle ≡ l.state.handle)
    unfolding Launch.measure command
    measure_lem l t = (_, made l.vm_fd _ _ _ t, refl)

    inject_lem :
        (l : Launcher Measured) (sealed : Secret) (guest : ℕ) (t : Seen k.State)
        → Made t (Launch.inject (watching k) at heap l sealed guest t) tt 5
    unfolding Launch.inject command
    inject_lem l sealed guest t = made l.vm_fd _ _ _ t

    finish_lem :
        (l : Launcher Measured) (t : Seen k.State)
        → Made t (Launch.finish (watching k) at heap l t) l.state.handle 7
    unfolding Launch.finish command
    finish_lem l t = made l.vm_fd _ _ _ t

    -- On a kernel that refuses nothing, a tenant's session with an encryption key of 16 bytes and the
    -- random 16 bytes that are drawn for a secret takes a launch through: with whatever packet it starts,
    -- whatever data it adds and whatever build and digest it names, every call succeeds, the kernel sees
    -- start, data, measurement, secret and end in this order, the launch ends with the handle of its
    -- start, and the secret opens and its MAC covers the measurement that the launcher got.
    pub launch-Whole :
        (self : Session Initialized) (new : Launcher New) (packet : Start) (added : Slice)
        (digest : Bytes) (build : Build) (flags : HeaderFlags) (plain iv : Bytes) (guest : ℕ)
        (before : Seen k.State)
        → length self.tek ≡ 16
        → length iv ≡ 16
        → y.rand_bytes 5 16 ≡ ok iv
        → Whole self new packet added digest build flags plain guest before
    unfolding Attest.verify Launch.measurement
    launch-Whole self new packet added digest build flags plain iv guest before size_key size_iv
          drawn =
        let (started, (t₁, starts, seen₁)) = start_lem new packet before in
        let (t₂, updates, seen₂) = update_data_lem started added t₁ in
        let (measured, (t₃, measures, seen₃), same) = measure_lem started t₂ in
        let verified : Session (Attest.Verified y) = record {
          policy = self.policy;
          tek = self.tek;
          tik = self.tik;
          state = record { measurement = measured.state.measured };
        } in
        let (sealed, seals, _, same_iv, _, opens, covers) =
          secret-opens y symm verified flags plain iv size_key size_iv drawn in
        let (t₄, injects, seen₄) = inject_lem measured sealed guest t₃ in
        let (t₅, finishes, seen₅) = finish_lem measured t₄ in
        record {
          started = started;
          measured = measured;
          verified = verified;
          sealed = sealed;
          after_start = t₁;
          after_data = t₂;
          after_measure = t₃;
          after_inject = t₄;
          after = t₅;
          starts = starts;
          updates = updates;
          measures = measures;
          verifies = refl;
          seals = seals;
          injects = injects;
          finishes = finishes ∙ ap (λ h. (t₅, Outcome.ok h)) same;
          opens = opens;
          covers = rw same_iv covers;
          order = rw (seen₅, seen₄, seen₃, seen₂, seen₁);
        }
