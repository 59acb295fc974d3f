-- ===== src/Api/Launch/Refusals.antt =====
-- src/api/launch: what a launch makes of a kernel that refuses.
use csv_rs.Base.{
  ℕ, ◌==◌, ◌≡◌, ◌⊎◌, refl, Option, none, Bytes, ◌∷◌, length, some, Outcome, err, Bool-cases, inl,
  inr,
}
use csv_rs.Error.{IoError, to_io, from_code}
use csv_rs.Api.Launch.Policy.{Policy}
use csv_rs.Api.Launch.Session as Sessions
use csv_rs.Api.Launch.Secret.{Secret}
use csv_rs.Api.Launch.Command.{
  KvmEncRegion, Command, Heap, Kernel, issue, register, answered, accepted, and_then, encapsulate,
  enc_region,
}
use csv_rs.Api.Launch.Launcher as Launch
use csv_rs.Api.Launch.Launcher.{Launcher, New, Started, Measured, Places, Slice}
use csv_rs.Api.Launch.Watch.{Seen, watching}

-- Without an error number, the code is that of an error of the system.
encapsulate-eq-from_code : (cmd : Command) (e : IoError) → encapsulate cmd e ≡ from_code e cmd.error
unfolding encapsulate from_code
encapsulate-eq-from_code cmd e = elim (Bool-cases (cmd.error == 0)) [
  | inl none_given ↦ rw (none_given)
  | inr given ↦ rw (given)
]

-- The error of the first of two steps, if there is one, and that of the second.
abbrev pub first_error : Option IoError → IoError → IoError
first_error none second = second
first_error (some first) second = first

option_cases : (o : Option IoError) → (o ≡ none) ⊎ ((e : IoError) × (o ≡ some e))
option_cases none = inl refl
option_cases (some e) = inr (e, refl)

-- A kernel that refuses every command with an errno and an error number.
pub record Refuses (k : Kernel) (e : IoError) (code : ℕ) : Type 0 where
  pub failed :
      (t : k.State) (vm_fd : ℕ) (cmd : Command) (h : Heap) → (k.op t vm_fd cmd h).failure ≡ some e
  pub numbered :
      (t : k.State) (vm_fd : ℕ) (cmd : Command) (h : Heap)
      → (k.op t vm_fd cmd h).command.error ≡ code

module _ (k : Kernel) (at : Places) (heap : Heap) (e : IoError) (code : ℕ)
    (refuses : Refuses k e code) where
  refused :
      {B : Type 0} (vm_fd : ℕ) (cmd : Command) (given : Heap) (s : k.State) (make : Heap → B)
      → (and_then (issue k vm_fd cmd given s) (λ h s'. (s', Outcome.ok (make h)))).1
        ≡ err (to_io (from_code e code))
  unfolding issue answered
  refused vm_fd cmd given s make = rw (
    refuses.failed s vm_fd cmd given,
    encapsulate-eq-from_code (k.op s vm_fd cmd given).command e,
    refuses.numbered s vm_fd cmd given,
  )

  refused_data :
      (l : Launcher Started) (added : Slice) (s : k.State)
      → (Launch.update_data k at heap l added s).1
        ≡ err (
            first_error
              (k.reg_region s l.vm_fd (record { addr = added.addr; size = length added.bytes })).1
              (to_io (from_code e code)))
  unfolding Launch.update_data register accepted enc_region
  refused_data l added s =
      let area : KvmEncRegion = record { addr = added.addr; size = length added.bytes } in
      elim (option_cases (k.reg_region s l.vm_fd area).1) [
        | inl registered ↦ rw (registered) (refused l.vm_fd _ _ (k.reg_region s l.vm_fd area).0 _)
        | inr (e', failed) ↦ rw (failed) refl
      ]

  -- On a kernel that refuses every command with one error of the system and one number, each call
  -- of a launch that makes a command fails with the firmware's error of that number, or, where the
  -- number is 0, with the error of the system; only where the kernel does not even register the
  -- region of new data does that call fail with the error of the registration.
  pub launch-refused :
      (kvm csv guest : ℕ) (fresh : Launcher New) (started : Launcher Started)
      (measured : Launcher Measured) (packet : Sessions.Start) (p : Policy) (added : Slice)
      (mnonce : Bytes) (secret : Secret) (s : k.State)
      → let report = to_io (from_code e code) in
        ((Launch.new k at heap kvm csv s).1 ≡ err report)
        × ((Launch.new_es k at heap kvm csv s).1 ≡ err report)
        × ((Launch.start k at heap fresh packet s).1 ≡ err report)
        × ((Launch.start_raw k at heap fresh p packet.cert packet.session s).1 ≡ err report)
        × ((Launch.start_with_policy_only k at heap fresh p s).1 ≡ err report)
        × ((Launch.update_data k at heap started added s).1
            ≡ err (
                first_error
                  (k.reg_region s started.vm_fd
                    (record { addr = added.addr; size = length added.bytes })).1
                  report))
        × ((Launch.update_data_without_registration k at heap started added s).1 ≡ err report)
        × ((Launch.update_vmsa k at heap started s).1 ≡ err report)
        × ((Launch.measure k at heap started s).1 ≡ err report)
        × ((Launch.get_attestation_report k at heap measured mnonce s).1 ≡ err report)
        × ((Launch.inject k at heap measured secret guest s).1 ≡ err report)
        × ((Launch.finish k at heap measured s).1 ≡ err report)
  unfolding Launch.new Launch.new_es Launch.start Launch.start_raw Launch.start_with_policy_only
      Launch.update_data register accepted enc_region Launch.update_data_without_registration
      Launch.update_vmsa Launch.measure Launch.get_attestation_report Launch.inject Launch.finish
  launch-refused kvm csv guest fresh started measured packet p added mnonce secret s = (
    refused kvm _ _ s _,
    refused kvm _ _ s _,
    refused fresh.vm_fd _ _ s _,
    refused fresh.vm_fd _ _ s _,
    refused fresh.vm_fd _ _ s _,
    refused_data started added s,
    refused started.vm_fd _ _ s _,
    refused started.vm_fd _ _ s _,
    refused started.vm_fd _ _ s _,
    refused measured.vm_fd _ _ s _,
    refused measured.vm_fd _ _ s _,
    refused measured.vm_fd _ _ s _,
  )

-- A region that the kernel does not register: the call for new data fails with just that error, and the
-- kernel sees no command.
pub update_data-unregistered :
    (k : Kernel) (at : Places) (heap : Heap) (l : Launcher Started) (added : Slice)
    (s : Seen k.State) (e : IoError)
    → let answer =
        k.reg_region s.state l.vm_fd (record { addr = added.addr; size = length added.bytes }) in
      answer.1 ≡ some e
      → Launch.update_data (watching k) at heap l added s ≡ (
        record {
          state = answer.0;
          commands = s.commands;
          regions = record { addr = added.addr; size = length added.bytes } ∷ s.regions;
        },
        err e,
      )
unfolding Launch.update_data register accepted enc_region
update_data-unregistered k at heap l added s e refuses = rw (refuses)
