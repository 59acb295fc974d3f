-- ===== src/Api/Platform/Command.antt =====
-- src/api/platform/ioctl.rs: the commands to the platform's device. The device is a parameter, from
-- a state and a memory to those afterwards.
use csv_rs.Base.{ℕ, Option, some, none, Outcome, ok, err}
unfoldable pub use csv_rs.Util.Heap.{Heap, place}
use csv_rs.Error.{IoError, Indeterminate, known_io}

-- `impl_const_id!`
abbrev pub platform_reset_id : ℕ
platform_reset_id = 0x0

abbrev pub platform_status_id : ℕ
platform_status_id = 0x1

abbrev pub pek_gen_id : ℕ
pek_gen_id = 0x2

abbrev pub pek_csr_id : ℕ
pek_csr_id = 0x3

abbrev pub pdh_gen_id : ℕ
pdh_gen_id = 0x4

abbrev pub pdh_cert_export_id : ℕ
pdh_cert_export_id = 0x5

abbrev pub pek_cert_import_id : ℕ
pek_cert_import_id = 0x6

abbrev pub get_id_id : ℕ
get_id_id = 0x8

pub record Command : Type 0 where
  pub code : ℕ
  pub data_addr : ℕ
  pub error : ℕ

-- `Command::from` and `Command::from_mut`
unfoldable pub command : ℕ → ℕ → Command
command code subcmd = record { code = code; data_addr = subcmd; error = 0 }

-- What the device does with a command.
pub record Reply (State : Type 0) : Type 0 where
  pub state : State
  pub failure : Option IoError
  pub command : Command
  pub heap : Heap

pub record Device : Type 1 where
  pub State : Type 0
  pub op : State → Command → Heap → Reply State

-- `?` on what an ioctl returns: the command and its error field are dropped.
unfoldable pub answered : Option IoError → Heap → Outcome Indeterminate Heap
answered none heap = ok heap
answered (some e) heap = err (known_io e)

-- `NAME.ioctl(&mut self.0, &mut command)?`
unfoldable pub issue :
    (d : Device) → Command → Heap → d.State → d.State × Outcome Indeterminate Heap
unfolding answered
issue d cmd heap s = let reply = d.op s cmd heap in (reply.state, answered reply.failure reply.heap)
