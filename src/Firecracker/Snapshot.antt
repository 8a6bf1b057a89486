-- ===== src/Firecracker/Snapshot.antt =====
-- pkg/runtimes/firecracker/snapshotter.go. Files are contents by path; where the files of a machine lie is
-- an argument, and so are what each call returns, what of a content has arrived when a copy or a write
-- fails, and what firecracker writes when it makes a snapshot.
pub mod Files
pub mod Create
pub mod Order
pub mod Cleanup
pub mod Copied
mod Examples
use drafter.Base.{ℕ, Bool, List, [], ◌∷◌, String}
use drafter.Errors.{GoError}
use drafter.Common.Package.{Content, FileSystem}
use drafter.Action.{Action, each}
use drafter.Script.{Oracle}
use drafter.Common.DirtyManager.{device_memory_name}
use drafter.Firecracker.Machine.{ApiCall, ApiStep}

pub record SnapshotDevice : Type 0 where
  pub name : String
  pub input : String
  pub output : String

-- How the code ends a use of the agent server: by a call, or by the deferred one.
pub data Ending : Type 0 where
  by_call deferred : Ending

pub data SnapshotCall : Type 0 where
  make_chroot_base_dir start_machine close_machine remove_vm_dir server_error : SnapshotCall
  open_liveness chown_liveness close_liveness receive_and_close : SnapshotCall
  start_agent chown_agent get_remote before_suspend : SnapshotCall
  close_agent : Ending → SnapshotCall
  remove_vsock wait_ready marshal_config : SnapshotCall
  api : ApiCall → SnapshotCall
  -- the directory of a file
  make_output_dir : String → SnapshotCall
  create_file open_file write_file close_file chown_file : String → SnapshotCall
  copy_content : String → String → SnapshotCall

abbrev pub SnapshotAction : Type 0
SnapshotAction = Action SnapshotCall FileSystem

-- The names of pkg/common/package.go.
abbrev pub device_kernel_name : String
device_kernel_name = "kernel"

abbrev pub device_disk_name : String
device_disk_name = "disk"

abbrev pub device_state_name : String
device_state_name = "state"

abbrev pub device_config_name : String
device_config_name = "config"

abbrev pub known_names : List String
known_names =
    device_kernel_name ∷ device_disk_name ∷ device_state_name ∷ device_memory_name
    ∷ device_config_name ∷ []

abbrev pub vsock_name : String
vsock_name = "vsock.sock"

-- The calls of the API of a machine, up to the first that fails.
abbrev pub api_steps : Oracle SnapshotCall → List ApiStep → SnapshotAction
api_steps reply = each reply api
