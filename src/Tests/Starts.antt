-- ===== src/Tests/Starts.antt =====
-- The properties of starting a session, at the samples.
use csv_rs.Base.{Bytes, ◌∷◌, ◌≡◌, refl, arith, ok, [], replicate}
use csv_rs.Crypto.Ecc.{group_nid}
use csv_rs.Crypto.Sm2
use csv_rs.Certs.Usage.{usage_algorithm, algorithm_digest}
use csv_rs.Certs.Csv.Cert.{no_signature, generate, generate_body, generate_key, chosen_uid}
use csv_rs.Api.Launch.Session as Launch
use csv_rs.Api.Launch.SessionSign as Sign
use csv_rs.Session.Key.{random, zeroed}
use csv_rs.Session.Channel.{Session, Initialized, of_policy, start, start_pdh, session}
use csv_rs.Session.Protected.{Sized, Protected, session-Protected}
use csv_rs.Session.Start.{start-iff-start_pdh, start_pdh-Protected}
use csv_rs.Api.Launch.Launcher as Launching
use csv_rs.Api.Launch.Command.{Command, Heap}
use csv_rs.Api.Launch.Watch.{watching}
use csv_rs.Tests.Kernels.{places, empty_heap, accepting}
use csv_rs.Tests.Toy.{
  numbers, numbers-laws, curve, curve-laws, curve-der, sums, sums-laws, points, points-laws,
}
use csv_rs.Tests.Symm.{symm, symm-laws, octets}
use csv_rs.Tests.Trusted.{trusted, trusted_verifies, trusted-AreCertificates}
use csv_rs.Tests.Tenant.{tenant, guest_certificate, guest_key, sealable, sized}
use csv_rs.Tests.Launchers.{apart, unseen}
use csv_rs.Tests.Kernels.{fresh_launcher}
use csv_rs.Api.Launch.Delivery.{Delivered}
use csv_rs.Session.Launched.{start-Launched}
use csv_rs.Session.Typed.{start-IsStart}
use csv_rs.Certs.Trust.{verify-iff-Trusted}

session-Protected_example :
    (s : Launch.Session) × (session numbers curve points sums symm tenant
        (replicate 16 3)
        (replicate 16 4)
        (replicate 16 2)
        trusted.csv.pdh
        guest_key
        3
        0
      ≡ ok s)
    × Protected curve points sums symm sums-laws symm-laws tenant
        (replicate 16 3)
        (replicate 16 4)
        (replicate 16 2)
        trusted.csv.pdh
        3
        sealable
        s.body
    × (Sign.verify numbers curve guest_certificate s ≡ ok tt)
unfolding generate generate_body generate_key chosen_uid Sm2.generate group_nid usage_algorithm
    algorithm_digest replicate no_signature
session-Protected_example =
    session-Protected numbers curve points sums symm numbers-laws curve-laws curve-der sums-laws
      symm-laws points-laws tenant (replicate 16 3) (replicate 16 4) (replicate 16 2)
      trusted.csv.pdh guest_certificate guest_key (replicate 32 5, replicate 32 7) 5 3 0 sealable
      sized refl refl refl

made :
    (s : Launch.Start) × (start_pdh numbers curve points sums symm tenant trusted.csv.pdh 5 3 0
      ≡ ok s)
    × (s.policy ≡ tenant.policy)
    × (s.cert ≡ guest_certificate)
    × Protected curve points sums symm sums-laws symm-laws tenant
        (replicate 16 3)
        (replicate 16 4)
        (replicate 16 2)
        trusted.csv.pdh
        3
        sealable
        s.session.body
    × (Sign.verify numbers curve s.cert s.session ≡ ok tt)
unfolding generate generate_body generate_key chosen_uid Sm2.generate group_nid usage_algorithm
    algorithm_digest replicate no_signature
made =
    start_pdh-Protected numbers curve points sums symm numbers-laws curve-laws curve-der sums-laws
      symm-laws points-laws tenant (replicate 16 2) (replicate 16 3) (replicate 16 4)
      trusted.csv.pdh guest_certificate guest_key (replicate 32 5, replicate 32 7) 5 3 0 sealable
      sized refl refl refl refl refl refl

start-iff-start_pdh_example : start numbers curve points sums symm tenant trusted 5 3 0 ≡ ok made.0
start-iff-start_pdh_example =
    (start-iff-start_pdh numbers curve points sums symm tenant trusted 5 3 0 made.0).1
      (trusted.csv.pdh, trusted_verifies, made.1, made.5)

-- The tenant whose keys are the draws 0 and 1.
abbrev drawn_tenant : Session Initialized
drawn_tenant = record tenant { tek = replicate 16 0; tik = replicate 16 1 }

drawn_tenant-Sized : Sized drawn_tenant (replicate 16 3) (replicate 16 4) (replicate 16 2)
unfolding replicate
drawn_tenant-Sized = record {
  size_tek = refl;
  size_tik = refl;
  size_nonce = refl;
  size_iv = refl;
  size_z = refl;
}

drawn_made :
    (s : Launch.Start) × (start numbers curve points sums symm drawn_tenant trusted 5 3 0 ≡ ok s)
unfolding generate generate_body generate_key chosen_uid Sm2.generate group_nid usage_algorithm
    algorithm_digest replicate no_signature
drawn_made =
    let (s, starts, _, _, _, accepted) =
      start_pdh-Protected numbers curve points sums symm numbers-laws curve-laws curve-der sums-laws
        symm-laws points-laws drawn_tenant (replicate 16 2) (replicate 16 3) (replicate 16 4)
        trusted.csv.pdh guest_certificate guest_key (replicate 32 5, replicate 32 7) 5 3 0 sealable
        drawn_tenant-Sized refl refl refl refl refl refl in
    (
      s,
      (start-iff-start_pdh numbers curve points sums symm drawn_tenant trusted 5 3 0 s).1
          (trusted.csv.pdh, trusted_verifies, starts, accepted),
    )

start-IsStart_example :
    Launch.IsStart drawn_made.0
    × (drawn_made.0.policy ≡ tenant.policy)
    × (written : Bytes) × (Launch.encode drawn_made.0 [] ≡ ok written)
    × (Launch.decode written ≡ ok (drawn_made.0, []))
unfolding of_policy random zeroed replicate
start-IsStart_example =
    start-IsStart numbers curve points sums symm numbers-laws octets tenant.policy trusted 5 3 0
      drawn_made.0 (omega arith, (omega arith, omega arith)) drawn_made.1

start-Launched_example :
    (s : Launch.Start) × (cmd : Command) × (seen : Heap) × (start numbers curve points sums symm
        tenant trusted 5 3 0
      ≡ ok s)
    × ((Launching.start (watching accepting) places empty_heap fresh_launcher s unseen).0.commands
        ≡ (cmd, seen) ∷ [])
    × Delivered cmd seen fresh_launcher.csv s
    × (s.policy ≡ tenant.policy)
    × Protected curve points sums symm sums-laws symm-laws tenant
        (replicate 16 3)
        (replicate 16 4)
        (replicate 16 2)
        trusted.csv.pdh
        3
        sealable
        s.session.body
    × (Sign.verify numbers curve s.cert s.session ≡ ok tt)
unfolding generate generate_body generate_key chosen_uid Sm2.generate group_nid usage_algorithm
    algorithm_digest replicate no_signature
start-Launched_example =
    start-Launched numbers curve points sums symm numbers-laws curve-laws curve-der sums-laws
      symm-laws octets points-laws tenant (replicate 16 2) (replicate 16 3) (replicate 16 4) trusted
      guest_certificate guest_key (replicate 32 5, replicate 32 7) 5 3 0 sealable accepting places
      empty_heap fresh_launcher unseen trusted-AreCertificates
      ((verify-iff-Trusted numbers curve trusted trusted-AreCertificates trusted.csv.pdh).0
        trusted_verifies).1
      sized refl refl refl refl refl refl (omega arith, (omega arith, omega arith)) apart
