-- ===== src/Api/Launch/Watch.antt =====
-- What the kernel sees of a launch, and what the launch makes of the kernel's answers.
use csv_rs.Base.{List, ◌∷◌}
use csv_rs.Api.Launch.Command.{Command, KvmEncRegion, Heap, Kernel}

-- A kernel's state, with the commands and the regions that came, the latest in front.
pub record Seen (State : Type 0) : Type 0 where
  pub state : State
  pub commands : List (Command × Heap)
  pub regions : List KvmEncRegion

abbrev pub watching : Kernel → Kernel
watching k = record {
  State = Seen k.State;
  op = λ s vm_fd cmd heap.
      let r = k.op s.state vm_fd cmd heap in
      record {
        state = record {
          state = r.state;
          commands = (cmd, heap) ∷ s.commands;
          regions = s.regions;
        };
        failure = r.failure;
        command = r.command;
        heap = r.heap;
      };
  reg_region = λ s vm_fd area.
      let r = k.reg_region s.state vm_fd area in
      (record { state = r.0; commands = s.commands; regions = area ∷ s.regions }, r.1);
}
