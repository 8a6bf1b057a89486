-- ===== src/Firecracker/Machine.antt =====
-- pkg/runtimes/firecracker/machine.go: the process of a virtual machine, and the calls of its API. What
-- the API and the system return is an argument.
pub mod Process
pub mod Start
pub mod Life
pub mod Jailer
mod Examples
use drafter.Base.{
  ℕ, Bool, not, List, [], ◌∷◌, ◌++◌, map, String, Option, none, some, if◌then◌else◌, str_eq,
}
use drafter.Errors.{GoError, nil, failed, join, Cause, FirecrackerError}

pub record NetworkConfiguration : Type 0 where
  pub interface_name : String
  pub mac : String

pub record VmConfiguration : Type 0 where
  pub cpu_count : ℕ
  pub memory_size : ℕ
  pub cpu_template : String
  pub boot_args : String

abbrev pub snapshot_type_full : String
snapshot_type_full = "Full"

abbrev pub snapshot_type_msync : String
snapshot_type_msync = "Msync"

abbrev pub snapshot_type_msync_and_state : String
snapshot_type_msync_and_state = "MsyncAndState"

abbrev pub io_engine_sync : String
io_engine_sync = "Sync"

abbrev pub io_engine_async : String
io_engine_async = "Async"

pub data ApiCall : Type 0 where
  -- the paths of the state and of the memory, and `Shared`
  load_snapshot : String → String → Bool → ApiCall
  -- `PatchVM` to the state "Paused"
  pause_vm : ApiCall
  -- the paths of the memory and of the state, and the type
  create_snapshot : String → String → String → ApiCall
  put_boot_source : String → String → ApiCall
  put_drive : String → String → ApiCall
  put_machine_configuration : ℕ → ℕ → String → ApiCall
  put_vsock : ℕ → String → ApiCall
  put_network_interface : String → String → ApiCall
  start_instance : ApiCall

abbrev pub because : FirecrackerError → GoError
because e = Cause.firecracker e ∷ []

-- A call, and the sentinel that its error is joined to, or nil where it comes back bare.
abbrev pub ApiStep : Type 0
ApiStep = ApiCall × GoError

-- `ResumeSnapshot`
unfoldable pub resume_snapshot_steps : Bool → String → String → List ApiStep
resume_snapshot_steps no_map_shared state_path memory_path =
    (
      load_snapshot state_path memory_path (not no_map_shared),
      because FirecrackerError.could_not_resume_snapshot,
    )
    ∷ []

-- `CreateSnapshot` of the machine: the VM is paused, but for an msync.
unfoldable pub create_snapshot_steps : String → String → String → List ApiStep
create_snapshot_steps state_path memory_path snapshot_type =
    (if str_eq snapshot_type snapshot_type_msync then [] else (pause_vm, nil) ∷ [])
    ++ (create_snapshot memory_path state_path snapshot_type, nil) ∷ []

-- The loop over the disks of `StartVM`.
unfoldable pub drive_steps : List String → String → List ApiStep
drive_steps [] io_engine = []
drive_steps (disk ∷ disks) io_engine =
    (put_drive disk io_engine, because FirecrackerError.could_not_set_drive)
    ∷ drive_steps disks io_engine

-- `StartVM`
unfoldable pub start_vm_steps :
    String
    → List String
    → String
    → VmConfiguration
    → NetworkConfiguration
    → String
    → ℕ
    → List ApiStep
unfolding drive_steps
start_vm_steps kernel disks io_engine vm net vsock_path vsock_cid =
    (put_boot_source kernel vm.boot_args, because FirecrackerError.could_not_set_boot_source)
      ∷ drive_steps disks io_engine
    ++ (
      put_machine_configuration vm.cpu_count vm.memory_size vm.cpu_template,
      because FirecrackerError.could_not_set_machine_config,
    )
      ∷ (put_vsock vsock_cid vsock_path, because FirecrackerError.could_not_set_vsock)
      ∷ (
        put_network_interface net.interface_name net.mac,
        because FirecrackerError.could_not_set_network_interfaces,
      )
      ∷ (start_instance, because FirecrackerError.could_not_start_instance)
      ∷ []
