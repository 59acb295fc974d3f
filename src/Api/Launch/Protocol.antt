-- ===== src/Api/Launch/Protocol.antt =====
-- The order of the commands of a launch, and that the launcher keeps to it.
use csv_rs.Base.{ℕ, ◌≡◌, inl, inr, refl, List, [], ◌∷◌, Outcome, ok}
use csv_rs.Api.Launch.Command.{
  Command, command, Heap, Kernel, enc_region, issue, register, and_then,
}
use csv_rs.Api.Launch.Launcher as Launch
use csv_rs.Api.Launch.Launcher.{Launcher, New, Started, Measured, Places, Slice}
use csv_rs.Api.Launch.Steps.{
  Stage, nothing, fresh, started, measured, finished, dropped, Step, Steps, led, none_yet, one_more,
  issue-cases, register-cases,
}
use csv_rs.Api.Launch.Steps as Calls

-- What is asked of the kernel.
pub data Event : Type 0 where
  issued : ℕ → Event
  registered : Event

pub data Phase : Type 0 where
  idle begun running attested complete lost : Phase

-- The commands of a launch, by their numbers, and where they lead.
pub data Allowed : Phase → Event → Phase → Type 0 where
  init : Allowed idle (issued 0) begun
  es_init : Allowed idle (issued 1) begun
  start : Allowed begun (issued 2) running
  region : Allowed running registered running
  update_data : Allowed running (issued 3) running
  update_vmsa : Allowed running (issued 4) running
  measure : Allowed running (issued 6) attested
  secret : Allowed attested (issued 5) attested
  report : Allowed attested (issued 20) attested
  finish : Allowed attested (issued 7) complete

-- The logs of a launch, with the latest event in front: a command either leads on, or is the last one.
pub data Protocol : List Event → Phase → Type 0 where
  empty : Protocol [] idle
  leads :
      {log : List Event} {p q : Phase} {e : Event}
      → Protocol log p
      → Allowed p e q
      → Protocol (e ∷ log) q
  fails :
      {log : List Event} {p q : Phase} {e : Event}
      → Protocol log p
      → Allowed p e q
      → Protocol (e ∷ log) lost

abbrev pub phase : Stage → Phase
phase nothing = idle
phase (fresh l) = begun
phase (started l) = running
phase (measured l) = attested
phase (finished h) = complete
phase dropped = lost

-- The kernel, with a log of what was asked of it.
abbrev pub recording : Kernel → Kernel
recording k = record {
  State = k.State × List Event;
  op = λ s vm_fd cmd heap.
      let r = k.op s.0 vm_fd cmd heap in
      record {
        state = (r.state, issued cmd.code ∷ s.1);
        failure = r.failure;
        command = r.command;
        heap = r.heap;
      };
  reg_region =
      λ s vm_fd region. let r = k.reg_region s.0 vm_fd region in ((r.0, registered ∷ s.1), r.1);
}

module _ (k : Kernel) (at : Places) (heap : Heap) where
  -- The log is one of the protocol's, and the launch is where the log leads.
  abbrev pub Kept : Stage × (recording k).State → Type 0
  Kept (stage, s) = Protocol s.1 (phase stage)

  -- A call that consumes the launcher for one command.
  consumes :
      {B : Type 0} {p q : Phase} (vm_fd : ℕ) (cmd : Command) (given : Heap)
      (s : (recording k).State) (stage : B → Stage) (make : Heap → B)
      → ((b : B) → phase (stage b) ≡ q)
      → Allowed p (issued cmd.code) q
      → Protocol s.1 p
      → Kept
          (led stage (and_then (issue (recording k) vm_fd cmd given s) (λ h s'. (s', ok (make h)))))
  consumes {q} vm_fd cmd given s stage make leads_to allowed kept =
      elim (issue-cases (recording k) vm_fd cmd given s) [
        | inl (h, ok_h) ↦ rw (ok_h, leads_to (make h)) (leads kept allowed)
        | inr (e, err_e) ↦ rw (err_e) (fails kept allowed)
      ]

  -- A call that leaves the launcher as it is, for one command.
  leaves :
      {B : Type 0} {p : Phase} (vm_fd : ℕ) (cmd : Command) (given : Heap) (s : (recording k).State)
      (make : Heap → B)
      → Allowed p (issued cmd.code) p
      → Protocol s.1 p
      → Protocol
          (and_then (issue (recording k) vm_fd cmd given s) (λ h s'. (s', Outcome.ok (make h)))).0.1
          p
  leaves vm_fd cmd given s make allowed kept = elim (issue-cases (recording k) vm_fd cmd given s) [
    | inl (h, ok_h) ↦ rw (ok_h) (leads kept allowed)
    | inr (e, err_e) ↦ rw (err_e) (leads kept allowed)
  ]

  Kept-Step : {a b : Stage × (recording k).State} → Step (recording k) at heap a b → Kept a → Kept b
  unfolding Launch.new Launch.new_es Launch.start Launch.start_raw Launch.start_with_policy_only
      Launch.update_data_without_registration Launch.register_kvm_enc_region Launch.update_data
      Launch.update_vmsa Launch.measure Launch.get_attestation_report Launch.inject Launch.finish
      command register
  Kept-Step (Calls.new kvm csv s) kept = consumes kvm _ _ s fresh _ (λ l. refl) init kept
  Kept-Step (Calls.new_es kvm csv s) kept = consumes kvm _ _ s fresh _ (λ l. refl) es_init kept
  Kept-Step (Calls.start l packet s) kept = consumes l.vm_fd _ _ s started _ (λ m. refl) start kept
  Kept-Step (Calls.start_raw l p cert session s) kept =
      consumes l.vm_fd _ _ s started _ (λ m. refl) start kept
  Kept-Step (Calls.start_with_policy_only l p s) kept =
      consumes l.vm_fd _ _ s started _ (λ m. refl) start kept
  Kept-Step (Calls.update_data l added s) kept =
      elim (register-cases (recording k) l.vm_fd (enc_region added.addr added.bytes) s) [
        | inl accepted ↦ rw (accepted) (leaves l.vm_fd _ _ _ _ update_data (leads kept region))
        | inr (e, refused) ↦ rw (refused) (leads kept region)
      ]
  Kept-Step (Calls.register_kvm_enc_region l added s) kept = leads kept region
  Kept-Step (Calls.update_data_without_registration l added s) kept =
      leaves l.vm_fd _ _ s _ update_data kept
  Kept-Step (Calls.update_vmsa l s) kept = leaves l.vm_fd _ _ s _ update_vmsa kept
  Kept-Step (Calls.measure l s) kept = consumes l.vm_fd _ _ s measured _ (λ m. refl) measure kept
  Kept-Step (Calls.get_attestation_report l mnonce s) kept = leaves l.vm_fd _ _ s _ report kept
  Kept-Step (Calls.inject l packet guest s) kept = leaves l.vm_fd _ _ s _ secret kept
  Kept-Step (Calls.finish l s) kept = consumes l.vm_fd _ _ s finished _ (λ h. refl) finish kept

  -- Whatever calls are made on a launcher, and whichever of them the kernel refuses: what the kernel was
  -- asked, in order, is a log of the protocol, and the state of the launcher is where the log leads.
  pub launch-Kept :
      (s : k.State) {b : Stage × (recording k).State}
      → Steps (recording k) at heap (nothing, (s, [])) b
      → Protocol b.1.1 (phase b.0)
  launch-Kept s none_yet = empty
  launch-Kept s (one_more before step) = Kept-Step step (launch-Kept s before)
