-- ===== src/Tests/Launchers.antt =====
-- The properties of the launch, at the sample kernels.
use csv_rs.Base.{some, ℕ, ◌%◌, ◌^◌, ◌<◌, ◌≡◌, ◌↔◌, refl, arith, [], ◌∷◌, length, ok, err, replicate}
use csv_rs.Error.{to_io, from_code, os}
use csv_rs.Util.Memory.{le_value}
use csv_rs.Api.Launch.Types.{region, launch_start}
use csv_rs.Api.Launch.Command.{Command, Heap, issue, register, answered, accepted, place, command}
use csv_rs.Api.Launch.Launcher as Launch
use csv_rs.Api.Launch.Launcher.{Launcher, Measured}
use csv_rs.Api.Launch.Steps as Calls
use csv_rs.Api.Launch.Steps.{Stage, nothing, started, measured, finished, Steps, none_yet, one_more}
use csv_rs.Api.Launch.Protocol.{Protocol, issued, registered, complete, recording, launch-Kept}
use csv_rs.Api.Launch.Handles.{launch-Belongs}
use csv_rs.Api.Launch.Watch.{Seen, watching}
use csv_rs.Api.Launch.Delivery.{Apart, Delivered, start-Delivered, update_data-lengths}
use csv_rs.Api.Launch.Refusals.{first_error, launch-refused}
use csv_rs.Tests.Kernels.{
  places, empty_heap, accepting, refusing, fresh_launcher, started_launcher, measured_launcher,
  page, packed_secret,
}
use csv_rs.Tests.Samples.{packet, packet-IsStart, policy}

-- A launch of one page, from the beginning to the end.
whole :
    Steps
      (recording accepting)
      places
      empty_heap
      (nothing, (0, []))
      (finished 77, (0, issued 7 ∷ issued 6 ∷ issued 3 ∷ registered ∷ issued 2 ∷ issued 0 ∷ []))
unfolding Launch.new Launch.start_with_policy_only Launch.update_data Launch.measure Launch.finish
    issue register answered accepted place command launch_start le_value replicate
whole =
    one_more
      (one_more
        (one_more
          (one_more (one_more none_yet (Calls.new 8 9 _)) (Calls.start_with_policy_only _ policy _))
          (Calls.update_data _ page _))
        (Calls.measure _ _))
      (Calls.finish _ _)

launch-Kept_example :
    Protocol (issued 7 ∷ issued 6 ∷ issued 3 ∷ registered ∷ issued 2 ∷ issued 0 ∷ []) complete
launch-Kept_example = launch-Kept accepting places empty_heap 0 whole

rest : Steps accepting places empty_heap (started started_launcher, 0) (finished 77, 0)
unfolding Launch.update_data Launch.measure Launch.finish issue register answered accepted
rest =
    one_more (one_more (one_more none_yet (Calls.update_data _ page _)) (Calls.measure _ _))
      (Calls.finish _ _)

launch-Belongs_example : Path ℕ 77 77
launch-Belongs_example = launch-Belongs accepting places empty_heap started_launcher 0 rest

pub apart : Apart places
apart = record {
  first = λ h. omega (arith, h);
  second = λ h. omega (arith, h);
  third = λ h. omega (arith, h);
  certificate_fits = omega arith;
  session_fits = omega arith;
}

abbrev pub unseen : Seen ℕ
unseen = record { state = 0; commands = []; regions = [] }

start-Delivered_example :
    (cmd : Command) × (seen : Heap) × ((Launch.start
        (watching accepting)
        places
        empty_heap
        fresh_launcher
        packet
        unseen).0.commands
      ≡ (cmd, seen) ∷ unseen.commands)
    × Delivered cmd seen fresh_launcher.csv packet
    × (Launch.start_raw
          (watching accepting)
          places
          empty_heap
          fresh_launcher
          packet.policy
          packet.cert
          packet.session
          unseen
        ≡ Launch.start (watching accepting) places empty_heap fresh_launcher packet unseen)
start-Delivered_example =
    start-Delivered accepting places empty_heap fresh_launcher packet unseen packet-IsStart apart

update_data-lengths_example :
    (cmd : Command) × (seen : Heap) × (after : ℕ) × (Launch.update_data
        (watching accepting)
        places
        empty_heap
        started_launcher
        page
        unseen
      ≡ (
        record {
          state = after;
          commands = (cmd, seen) ∷ [];
          regions = record { addr = page.addr; size = length page.bytes } ∷ [];
        },
        ok tt,
      ))
    × (cmd.code ≡ 3)
    × (cmd.csv_fd ≡ started_launcher.csv % 2 ^ 32)
    × (seen page.addr ≡ page.bytes)
    × (region.of_bytes (seen cmd.data_addr)
        ≡ record { addr = page.addr; len = length page.bytes % 2 ^ 32 })
    × ((length page.bytes % 2 ^ 32 ≡ length page.bytes) ↔ (length page.bytes < 2 ^ 32))
update_data-lengths_example =
    update_data-lengths accepting places empty_heap started_launcher page unseen (omega arith)
      (λ same. absurd (omega (arith, same))) (λ t vm_fd area. refl) (λ t vm_fd cmd h. refl)

launch-refused_example :
    let report = to_io (from_code (os 5) 3) in
    ((Launch.new refusing places empty_heap 8 9 0).1 ≡ err report)
    × ((Launch.new_es refusing places empty_heap 8 9 0).1 ≡ err report)
    × ((Launch.start refusing places empty_heap fresh_launcher packet 0).1 ≡ err report)
    × ((Launch.start_raw refusing places empty_heap fresh_launcher policy packet.cert packet.session
          0).1
        ≡ err report)
    × ((Launch.start_with_policy_only refusing places empty_heap fresh_launcher policy 0).1
        ≡ err report)
    × ((Launch.update_data refusing places empty_heap started_launcher page 0).1
        ≡ err (first_error (some (os 12)) report))
    × ((Launch.update_data_without_registration refusing places empty_heap started_launcher page
          0).1
        ≡ err report)
    × ((Launch.update_vmsa refusing places empty_heap started_launcher 0).1 ≡ err report)
    × ((Launch.measure refusing places empty_heap started_launcher 0).1 ≡ err report)
    × ((Launch.get_attestation_report refusing places empty_heap measured_launcher
          (replicate 16 1)
          0).1
        ≡ err report)
    × ((Launch.inject refusing places empty_heap measured_launcher packed_secret 4096 0).1
        ≡ err report)
    × ((Launch.finish refusing places empty_heap measured_launcher 0).1 ≡ err report)
launch-refused_example =
    launch-refused refusing places empty_heap (os 5) 3
      (record { failed = λ t vm_fd cmd h. refl; numbered = λ t vm_fd cmd h. refl }) 8 9 4096
      fresh_launcher started_launcher measured_launcher packet policy page (replicate 16 1)
      packed_secret 0
