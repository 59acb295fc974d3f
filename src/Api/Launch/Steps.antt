-- ===== src/Api/Launch/Steps.antt =====
-- src/api/launch/mod.rs: the calls on a launcher as steps, and the commands that they issue.
use csv_rs.Base.{
  ℕ, ◌≡◌, ◌⊎◌, inl, inr, refl, ap, Bytes, Option, some, none, Outcome, ok, err, panicked,
}
use csv_rs.Error.{IoError}
use csv_rs.Certs.Csv.Data as Csv
use csv_rs.Api.Launch.Policy.{Policy}
use csv_rs.Api.Launch.Session as Sessions
use csv_rs.Api.Launch.Secret.{Secret}
use csv_rs.Api.Launch.Types.{Handle}
use csv_rs.Api.Launch.Command.{
  Command, KvmEncRegion, Heap, Kernel, issue, register, answered, accepted,
}
use csv_rs.Api.Launch.Launcher as Launch
use csv_rs.Api.Launch.Launcher.{Launcher, New, Started, Measured, Places, Slice}

-- What there is of a launch: nothing yet, a launcher in one of its states, the handle at the end, or
-- nothing any more, after a call that consumed the launcher and failed.
pub data Stage : Type 0 where
  nothing : Stage
  fresh : Launcher New → Stage
  started : Launcher Started → Stage
  measured : Launcher Measured → Stage
  finished : Handle → Stage
  dropped : Stage

-- After a call that consumes the launcher.
abbrev pub after : {A : Type 0} → (A → Stage) → Outcome IoError A → Stage
after stage (ok a) = stage a
after stage (err e) = dropped
after stage panicked = dropped

abbrev pub led : {A S : Type 0} → (A → Stage) → S × Outcome IoError A → Stage × S
led stage r = (after stage r.1, r.0)

module _ (k : Kernel) (at : Places) (heap : Heap) where
  -- One call, with the kernel's states before and after it. The caller may borrow the descriptor of the
  -- machine (`as_mut_vmfd`) in between, but puts no other in its place.
  pub data Step : Stage × k.State → Stage × k.State → Type 0 where
    new :
        (kvm csv : ℕ) (s : k.State) → Step (nothing, s) (led fresh (Launch.new k at heap kvm csv s))
    new_es :
        (kvm csv : ℕ) (s : k.State)
        → Step (nothing, s) (led fresh (Launch.new_es k at heap kvm csv s))
    start :
        (l : Launcher New) (packet : Sessions.Start) (s : k.State)
        → Step (fresh l, s) (led started (Launch.start k at heap l packet s))
    start_raw :
        (l : Launcher New) (p : Policy) (cert : Csv.Certificate) (session : Sessions.Session)
        (s : k.State)
        → Step (fresh l, s) (led started (Launch.start_raw k at heap l p cert session s))
    start_with_policy_only :
        (l : Launcher New) (p : Policy) (s : k.State)
        → Step (fresh l, s) (led started (Launch.start_with_policy_only k at heap l p s))
    update_data :
        (l : Launcher Started) (added : Slice) (s : k.State)
        → Step (started l, s) (started l, (Launch.update_data k at heap l added s).0)
    register_kvm_enc_region :
        (l : Launcher Started) (added : Slice) (s : k.State)
        → Step (started l, s) (started l, (Launch.register_kvm_enc_region k at heap l added s).0)
    update_data_without_registration :
        (l : Launcher Started) (added : Slice) (s : k.State)
        → Step
            (started l, s)
            (started l, (Launch.update_data_without_registration k at heap l added s).0)
    update_vmsa :
        (l : Launcher Started) (s : k.State)
        → Step (started l, s) (started l, (Launch.update_vmsa k at heap l s).0)
    measure :
        (l : Launcher Started) (s : k.State)
        → Step (started l, s) (led measured (Launch.measure k at heap l s))
    get_attestation_report :
        (l : Launcher Measured) (mnonce : Bytes) (s : k.State)
        → Step (measured l, s) (measured l, (Launch.get_attestation_report k at heap l mnonce s).0)
    inject :
        (l : Launcher Measured) (secret : Secret) (guest : ℕ) (s : k.State)
        → Step (measured l, s) (measured l, (Launch.inject k at heap l secret guest s).0)
    finish :
        (l : Launcher Measured) (s : k.State)
        → Step (measured l, s) (led finished (Launch.finish k at heap l s))

  pub data Steps : Stage × k.State → Stage × k.State → Type 0 where
    none_yet : {a : Stage × k.State} → Steps a a
    one_more : {a b c : Stage × k.State} → Steps a b → Step b c → Steps a c

answered-cases :
    (failure : Option IoError) (cmd : Command) (heap : Heap)
    → ((after : Heap) × (answered failure cmd heap ≡ ok after))
      ⊎ ((e : IoError) × (answered failure cmd heap ≡ err e))
unfolding answered
answered-cases none cmd heap = inl (heap, refl)
answered-cases (some e) cmd heap = inr (_, refl)

-- A command is answered with a memory or with an error.
pub issue-cases :
    (k : Kernel) (vm_fd : ℕ) (cmd : Command) (heap : Heap) (s : k.State)
    → ((after : Heap) × (issue k vm_fd cmd heap s ≡ ((k.op s vm_fd cmd heap).state, ok after)))
      ⊎ ((e : IoError) × (issue k vm_fd cmd heap s ≡ ((k.op s vm_fd cmd heap).state, err e)))
unfolding issue
issue-cases k vm_fd cmd heap s =
    let r = k.op s vm_fd cmd heap in
    elim (answered-cases r.failure r.command r.heap) [
      | inl (after, given) ↦ inl (after, ap (λ o. (r.state, o)) given)
      | inr (e, refused) ↦ inr (e, ap (λ o. (r.state, o)) refused)
    ]

accepted-cases :
    (failure : Option IoError)
    → (accepted failure ≡ ok tt) ⊎ ((e : IoError) × (accepted failure ≡ err e))
unfolding accepted
accepted-cases none = inl refl
accepted-cases (some e) = inr (e, refl)

-- A registration is accepted or refused.
pub register-cases :
    (k : Kernel) (vm_fd : ℕ) (region : KvmEncRegion) (s : k.State)
    → (register k vm_fd region s ≡ ((k.reg_region s vm_fd region).0, ok tt))
      ⊎ ((e : IoError) × (register k vm_fd region s ≡ ((k.reg_region s vm_fd region).0, err e)))
unfolding register
register-cases k vm_fd region s =
    let r = k.reg_region s vm_fd region in
    elim (accepted-cases r.1) [
      | inl given ↦ inl (ap (λ o. (r.0, o)) given)
      | inr (e, refused) ↦ inr (e, ap (λ o. (r.0, o)) refused)
    ]
