-- ===== src/Api/Launch/Id.antt =====
-- src/api/launch/ioctl.rs: the numbers of the commands, by `impl_const_id!`.
use csv_rs.Base.{ℕ}

abbrev pub init : ℕ
init = 0

abbrev pub es_init : ℕ
es_init = 1

abbrev pub launch_start : ℕ
launch_start = 2

abbrev pub launch_update_data : ℕ
launch_update_data = 3

abbrev pub launch_update_vmsa : ℕ
launch_update_vmsa = 4

abbrev pub launch_secret : ℕ
launch_secret = 5

abbrev pub launch_measure : ℕ
launch_measure = 6

abbrev pub launch_finish : ℕ
launch_finish = 7

abbrev pub attestation : ℕ
attestation = 20
