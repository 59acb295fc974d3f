-- ===== src/Tests/Wholes.antt =====
-- A whole launch, with the samples.
use csv_rs.Base.{[], replicate, refl}
use csv_rs.Version.{Build}
use csv_rs.Session.Whole.{Whole, launch-Whole}
use csv_rs.Tests.Kernels.{places, empty_heap, accepting, fresh_launcher, page}
use csv_rs.Tests.Launchers.{unseen}
use csv_rs.Tests.Samples.{packet, uid}
use csv_rs.Tests.Symm.{symm, symm-laws}
use csv_rs.Tests.Tenant.{tenant}

abbrev build : Build
build = record { version = record { major = 1; minor = 2 }; build = 3 }

launch-Whole_example :
    Whole accepting places empty_heap symm symm-laws tenant fresh_launcher packet page [] build 0
      uid 65536 unseen
unfolding replicate
launch-Whole_example =
    launch-Whole accepting places empty_heap symm symm-laws (λ t vm_fd cmd h. refl)
      (λ t vm_fd area. refl) tenant fresh_launcher packet page [] build 0 uid (replicate 16 5) 65536
      unseen refl refl refl
