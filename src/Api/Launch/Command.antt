-- ===== src/Api/Launch/Command.antt =====
-- src/api/launch/ioctl.rs: the commands to the kernel and the registration of memory. The kernel is
-- a parameter, from a state and a memory to those afterwards.
use csv_rs.Base.{
  ℕ, ◌%◌, ◌^◌, ◌==◌, if◌then◌else◌, Bytes, length, Option, some, none, Outcome, ok, err, panicked,
}
unfoldable pub use csv_rs.Util.Heap.{Heap, place}
use csv_rs.Error.{IoError, Indeterminate, known_io, from_code, to_io}

pub record Command : Type 0 where
  pub code : ℕ
  pub data_addr : ℕ
  pub error : ℕ
  pub csv_fd : ℕ

-- `Command::from` and `Command::from_mut`: the place of the subcommand goes with the command.
unfoldable pub command : ℕ → ℕ → ℕ → Command
command code csv subcmd = record {
  code = code;
  data_addr = subcmd;
  error = 0;
  csv_fd = csv % 2 ^ 32;
}

-- `Command::encapsulate`
unfoldable pub encapsulate : Command → IoError → Indeterminate
encapsulate cmd e = if cmd.error == 0 then known_io e else from_code e cmd.error

-- `KvmEncRegion`
pub record KvmEncRegion : Type 0 where
  pub addr : ℕ
  pub size : ℕ

-- `KvmEncRegion::new`
unfoldable pub enc_region : ℕ → Bytes → KvmEncRegion
enc_region addr added = record { addr = addr; size = length added }

-- What the kernel does with a command: an errno or none, the command with its error field, and the
-- memory.
pub record Reply (State : Type 0) : Type 0 where
  pub state : State
  pub failure : Option IoError
  pub command : Command
  pub heap : Heap

-- `KVM_MEMORY_ENCRYPT_OP` and `KVM_MEMORY_ENCRYPT_REG_REGION` on the descriptor of a machine.
pub record Kernel : Type 1 where
  pub State : Type 0
  pub op : State → ℕ → Command → Heap → Reply State
  pub reg_region : State → ℕ → KvmEncRegion → State × Option IoError

-- `.map_err(|e| cmd.encapsulate(e))?`
unfoldable pub answered : Option IoError → Command → Heap → Outcome IoError Heap
answered none cmd heap = ok heap
answered (some e) cmd heap = err (to_io (encapsulate cmd e))

-- `NAME.ioctl(vm_fd, self)`
unfoldable pub accepted : Option IoError → Outcome IoError (Unit {0})
accepted none = ok tt
accepted (some e) = err e

module _ (k : Kernel) where
  -- `NAME.ioctl(vm_fd, &mut cmd).map_err(|e| cmd.encapsulate(e))?`: the kernel's state, and the memory.
  unfoldable pub issue : ℕ → Command → Heap → k.State → k.State × Outcome IoError Heap
  unfolding answered
  issue vm_fd cmd heap s =
      let reply = k.op s vm_fd cmd heap in
      (reply.state, answered reply.failure reply.command reply.heap)

  -- `KvmEncRegion::register`
  unfoldable pub register : ℕ → KvmEncRegion → k.State → k.State × Outcome IoError (Unit {0})
  unfolding accepted
  register vm_fd region s = let reply = k.reg_region s vm_fd region in (reply.0, accepted reply.1)

-- A step that stops at an error, and keeps the kernel's state in either case.
abbrev pub and_then {ℓ κ} :
    {S : Type 0} {A : Type ℓ} {B : Type κ}
    → S × Outcome IoError A
    → (A → S → S × Outcome IoError B)
    → S × Outcome IoError B
and_then (s, ok a) next = next a s
and_then (s, err e) next = (s, err e)
and_then (s, panicked) next = (s, panicked)
