-- ===== src/Api/Launch/Handles.antt =====
-- The handle of a guest, from the start of its launch to the end.
use csv_rs.Base.{ℕ, ◌≡◌, refl, ok, inl, inr}
use csv_rs.Api.Launch.Command.{Command, Heap, Kernel, issue, and_then}
use csv_rs.Api.Launch.Launcher as Launch
use csv_rs.Api.Launch.Launcher.{Launcher, Started, Places}
use csv_rs.Api.Launch.Steps.{
  Stage, nothing, fresh, started, measured, finished, dropped, Step, Steps, led, none_yet, one_more,
  issue-cases,
}
use csv_rs.Api.Launch.Steps as Calls

-- What is left of a launch belongs to the guest that was started, on the same descriptors.
abbrev pub Belongs : Launcher Started → Stage → Type 0
Belongs l nothing = ⊥
Belongs l (fresh m) = ⊥
Belongs l (started m) = (m.state.handle ≡ l.state.handle) × (m.vm_fd ≡ l.vm_fd) × (m.csv ≡ l.csv)
Belongs l (measured m) = (m.state.handle ≡ l.state.handle) × (m.vm_fd ≡ l.vm_fd) × (m.csv ≡ l.csv)
Belongs l (finished h) = h ≡ l.state.handle
Belongs l dropped = Unit

module _ (k : Kernel) (at : Places) (heap : Heap) (l : Launcher Started) where
  -- A call that consumes the launcher.
  passes_on :
      {B : Type 0} (vm_fd : ℕ) (cmd : Command) (given : Heap) (s : k.State) (stage : B → Stage)
      (make : Heap → B)
      → ((h : Heap) → Belongs l (stage (make h)))
      → Belongs l (led stage (and_then (issue k vm_fd cmd given s) (λ h s'. (s', ok (make h))))).0
  passes_on vm_fd cmd given s stage make same = elim (issue-cases k vm_fd cmd given s) [
    | inl (h, ok_h) ↦ rw (ok_h) (same h)
    | inr (e, err_e) ↦ rw (err_e) tt
  ]

  Belongs-Step : {a b : Stage × k.State} → Step k at heap a b → Belongs l a.0 → Belongs l b.0
  unfolding Launch.measure Launch.finish
  Belongs-Step (Calls.new kvm csv s) same = elim same [ ]
  Belongs-Step (Calls.new_es kvm csv s) same = elim same [ ]
  Belongs-Step (Calls.start m packet s) same = elim same [ ]
  Belongs-Step (Calls.start_raw m p cert session s) same = elim same [ ]
  Belongs-Step (Calls.start_with_policy_only m p s) same = elim same [ ]
  Belongs-Step (Calls.update_data m added s) same = same
  Belongs-Step (Calls.register_kvm_enc_region m added s) same = same
  Belongs-Step (Calls.update_data_without_registration m added s) same = same
  Belongs-Step (Calls.update_vmsa m s) same = same
  Belongs-Step (Calls.measure m s) same = passes_on m.vm_fd _ _ s measured _ (λ h. same)
  Belongs-Step (Calls.get_attestation_report m mnonce s) same = same
  Belongs-Step (Calls.inject m packet guest s) same = same
  Belongs-Step (Calls.finish m s) same = passes_on m.vm_fd _ _ s finished _ (λ h. same.0)

  -- Whatever calls follow on a started launcher, whose descriptor of the machine the caller does
  -- not replace: a launcher that is left has the handle and the descriptors of the started one, and
  -- a launch that is finished gives that handle.
  pub launch-Belongs :
      (s : k.State) {b : Stage × k.State} → Steps k at heap (started l, s) b → Belongs l b.0
  launch-Belongs s none_yet = (refl, refl, refl)
  launch-Belongs s (one_more before step) = Belongs-Step step (launch-Belongs s before)
