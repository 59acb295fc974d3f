-- ===== src/Tests/Kernels.antt =====
-- Kernels that accept everything, and that refuse everything.
use csv_rs.Base.{
  ℕ, arith, length-replicate, All-replicate, IsByte, ◌==◌, if◌then◌else◌, ◌∷◌, ◌++◌, [], replicate,
  some, none,
}
use csv_rs.Error.{os}
use csv_rs.Api.Launch.Command.{Heap, Kernel, place}
use csv_rs.Api.Launch.Launcher.{Places, Slice, Launcher, New, new_launch, Started, Measured}
use csv_rs.Api.Launch.Secret.{Measurement, IsMeasurement, Secret}

abbrev pub places : Places
places = record {
  subcommand = 16;
  certificate = 4096;
  session = 8192;
  header = 32;
  ciphertext = 64;
  measurement = 128;
  report = 256;
}

abbrev pub empty_heap : Heap
empty_heap a = []

-- Bytes in the form of a measurement.
abbrev pub given_measurement : Measurement
given_measurement = record { measure = replicate 32 6; mnonce = replicate 16 7 }

-- It starts the guest 77, and measures every guest the same.
abbrev pub accepting : Kernel
accepting = record {
  State = ℕ;
  op = λ t vm_fd cmd h. record {
    state = t;
    failure = none;
    command = cmd;
    heap =
        if cmd.code == 2
        then place cmd.data_addr (77 ∷ replicate 39 0) h
        else place 128 (replicate 32 6 ++ replicate 16 7) h;
  };
  reg_region = λ t vm_fd area. (t, none);
}

-- Errno 5, with error number 3.
abbrev pub refusing : Kernel
refusing = record {
  State = ℕ;
  op = λ t vm_fd cmd h. record {
    state = t;
    failure = some (os 5);
    command = record cmd { error = 3 };
    heap = h;
  };
  reg_region = λ t vm_fd area. (t, some (os 12));
}

abbrev pub fresh_launcher : Launcher New
fresh_launcher = record { state = new_launch; vm_fd = 8; csv = 9 }

abbrev pub started_launcher : Launcher Started
started_launcher = record { state = record { handle = 77 }; vm_fd = 8; csv = 9 }

abbrev pub measured_launcher : Launcher Measured
measured_launcher = record {
  state = record { handle = 77; measured = given_measurement };
  vm_fd = 8;
  csv = 9;
}

abbrev pub page : Slice
page = record { addr = 12288; bytes = 1 ∷ 2 ∷ 3 ∷ [] }

abbrev pub packed_secret : Secret
packed_secret = record {
  header = record { flags = 0; iv = replicate 16 4; mac = replicate 32 5 };
  ciphertext = 9 ∷ [];
}

pub given_measurement-IsMeasurement : IsMeasurement given_measurement
given_measurement-IsMeasurement = (
  record { size = length-replicate {A = ℕ} 32 6; bytes = All-replicate IsByte 32 6 (omega arith) },
  record { size = length-replicate {A = ℕ} 16 7; bytes = All-replicate IsByte 16 7 (omega arith) },
)
