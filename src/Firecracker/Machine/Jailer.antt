-- ===== src/Firecracker/Machine/Jailer.antt =====
-- The command of `StartFirecrackerMachine` and the writer of `NewOutputPusher`, of
-- pkg/runtimes/firecracker/machine.go. The builder of the SDK is the record of what it was given; a path is
-- the list of what `filepath.Join` puts together, and a stream is a number.
use drafter.Base.{
  ℕ, zero, suc, Bool, true, false, List, [], ◌∷◌, String, Option, none, some, if◌then◌else◌, ◌≡◌,
  arith,
}
use drafter.Base.Text.{Text, decimal}

abbrev pub firecracker_socket_name : String
firecracker_socket_name = "firecracker.sock"

pub record FirecrackerMachineConfig : Type 0 where
  pub firecracker_bin : String
  pub jailer_bin : String
  pub chroot_base_dir : String
  pub uid : ℕ
  pub gid : ℕ
  pub net_ns : String
  pub numa_node : ℕ
  pub cgroup_version : ℕ
  pub stdout : Option ℕ
  pub stderr : Option ℕ
  pub stdin : Option ℕ
  pub no_map_shared : Bool

pub record JailerCommand : Type 0 where
  pub bin : String
  pub chroot_base_dir : String
  pub uid : ℕ
  pub gid : ℕ
  pub net_ns : List String
  pub cgroup_version : Text
  pub numa_node : ℕ
  pub id : String
  pub exec_file : String
  pub firecracker_args : List String
  pub stdout : Option ℕ
  pub stderr : Option ℕ
  pub stdin : Option ℕ
  -- whether the process gets a group of its own
  pub set_pgid : Bool

abbrev pub vm_path : FirecrackerMachineConfig → String → List String
vm_path conf id = conf.chroot_base_dir ∷ "firecracker" ∷ id ∷ "root" ∷ []

-- The builder before it is given any stream.
abbrev pub jailer_builder : FirecrackerMachineConfig → String → JailerCommand
jailer_builder conf id = record {
  bin = conf.jailer_bin;
  chroot_base_dir = conf.chroot_base_dir;
  uid = conf.uid;
  gid = conf.gid;
  net_ns = "/var" ∷ "run" ∷ "netns" ∷ conf.net_ns ∷ [];
  cgroup_version = decimal conf.cgroup_version;
  numa_node = conf.numa_node;
  id = id;
  exec_file = conf.firecracker_bin;
  firecracker_args = "--api-sock" ∷ firecracker_socket_name ∷ [];
  stdout = none;
  stderr = none;
  stdin = none;
  set_pgid = false;
}

abbrev pub with_stdout : Option ℕ → JailerCommand → JailerCommand
with_stdout none b = b
with_stdout (some w) b = record b { stdout = some w }

abbrev pub with_stdin : Option ℕ → JailerCommand → JailerCommand
with_stdin none b = b
with_stdin (some r) b = record b { stdin = some r }

-- A process without an input is not sent the signals of the terminal.
abbrev pub own_group : Option ℕ → JailerCommand → JailerCommand
own_group none b = record b { set_pgid = true }
own_group (some r) b = b

-- The command: the error stream is handed to `WithStdout` too.
unfoldable pub jailer_command : FirecrackerMachineConfig → String → JailerCommand
jailer_command conf id = own_group conf.stdin (
    with_stdin conf.stdin
      (with_stdout conf.stderr (with_stdout conf.stdout (jailer_builder conf id))))

-- Where an error stream is set, the process has it for its output, and no error stream.
jailer_command-stderr :
    (conf : FirecrackerMachineConfig) (id : String) (w : ℕ)
    → conf.stderr ≡ some w
    → ((jailer_command conf id).stdout ≡ some w) × ((jailer_command conf id).stderr ≡ none)
unfolding jailer_command
jailer_command-stderr conf id w h = (ground (arith, h), ground arith)

pub data PushCall : Type 0 where
  write_backspaces close_writer : PushCall

-- The goroutine of `NewOutputPusher`: its calls at so many ticks and, where the context has ended, behind them.
-- The error of any is only logged.
unfoldable pub push : ℕ → Bool → List PushCall
push zero ended = if ended then close_writer ∷ [] else []
push (suc ticks) ended = write_backspaces ∷ push ticks ended
