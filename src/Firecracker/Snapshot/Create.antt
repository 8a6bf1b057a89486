-- ===== src/Firecracker/Snapshot/Create.antt =====
-- `CreateSnapshot` of pkg/runtimes/firecracker/snapshotter.go.
use drafter.Base.{ℕ, Bool, not, ◌||◌, List, [], ◌∷◌, String, if◌then◌else◌, str_eq, is_empty}
use drafter.Base.Dict.{contains}
use drafter.Base.Text.{codes, trim_space}
use drafter.Errors.{nil, FirecrackerError}
use drafter.Script.{Oracle}
use drafter.Action.{◌⨾◌, done, call, dropped, deferring, under}
use drafter.Common.Package.{Content, FileSystem}
use drafter.Firecracker.Machine.{
  VmConfiguration, NetworkConfiguration, because, start_vm_steps, io_engine_sync, io_engine_async,
}
use drafter.Firecracker.Snapshot.{
  SnapshotDevice, SnapshotCall, SnapshotAction, api_steps, make_chroot_base_dir, start_machine,
  close_machine, remove_vm_dir, server_error, open_liveness, chown_liveness, close_liveness,
  receive_and_close, start_agent, chown_agent, get_remote, before_suspend, close_agent, by_call,
  deferred, remove_vsock, wait_ready, known_names, device_kernel_name, device_disk_name, vsock_name,
}
use drafter.Firecracker.Snapshot.Files.{copy_file, copy_snapshot_files, create_final_snapshot}

-- `VSockCIDGuest` of pkg/ipc/constants.go
abbrev pub vsock_cid_guest : ℕ
vsock_cid_guest = 3

-- `!slices.Contains(common.KnownNames, device.Name) || device.Name == common.DeviceDiskName`
unfoldable pub is_disk : String → Bool
is_disk name = not (contains name known_names) || str_eq name device_disk_name

-- `disks`, once the loop over the devices is through.
unfoldable pub disks : List SnapshotDevice → List String
unfolding is_disk
disks [] = []
disks (d ∷ ds) = if is_disk d.name then d.name ∷ disks ds else disks ds

module _ (reply : Oracle SnapshotCall) (cut : Content → Content) (vm_file : String → String)
    (written : FileSystem → FileSystem) where
  -- The loop over the devices: the inputs that are given are copied to the machine.
  unfoldable pub copy_inputs : List SnapshotDevice → SnapshotAction
  copy_inputs [] = done
  copy_inputs (d ∷ ds) =
      (if is_empty (trim_space (codes d.input))
        then done
        else under (because FirecrackerError.could_not_copy_device_file)
            (copy_file reply cut d.input (vm_file d.name)))
      ⨾ copy_inputs ds

  -- From the answer of the guest on: the guest is asked to get ready, its connection is closed, and
  -- the snapshot is made and copied.
  unfoldable pub suspend_and_copy : List SnapshotDevice → ℕ → SnapshotAction
  suspend_and_copy devices port =
      call reply receive_and_close
        (because FirecrackerError.could_not_receive_and_close_liveness_server)
      ⨾ dropped reply close_liveness
      ⨾ call reply wait_ready nil
      ⨾ call reply get_remote (because FirecrackerError.could_not_before_suspend)
      ⨾ call reply before_suspend (because FirecrackerError.could_not_before_suspend)
      ⨾ call reply (close_agent by_call) nil
      ⨾ create_final_snapshot reply cut vm_file written port
      ⨾ copy_snapshot_files reply cut vm_file devices
      ⨾ call reply server_error nil

  -- From the copies of the inputs on, once the agent server runs.
  unfoldable pub run_vm :
      List SnapshotDevice → Bool → VmConfiguration → NetworkConfiguration → ℕ → SnapshotAction
  run_vm devices io_engine_is_sync vm net port =
      copy_inputs devices
      ⨾ under (because FirecrackerError.could_not_start_vm) (
          api_steps reply (
            start_vm_steps device_kernel_name (disks devices)
              (if io_engine_is_sync then io_engine_sync else io_engine_async) vm net vsock_name
              vsock_cid_guest))
      ⨾ deferring (dropped reply remove_vsock) (suspend_and_copy devices port)

  -- With the machine running: the two servers that the guest connects to, and the rest.
  unfoldable pub with_machine :
      List SnapshotDevice → Bool → VmConfiguration → NetworkConfiguration → ℕ → SnapshotAction
  with_machine devices io_engine_is_sync vm net port =
      call reply open_liveness (because FirecrackerError.could_not_open_liveness_server)
      ⨾ call reply chown_liveness (because FirecrackerError.could_not_chown_liveness_server_vsock)
      ⨾ deferring (dropped reply close_liveness) (
          call reply start_agent (because FirecrackerError.could_not_start_agent_server)
          ⨾ call reply chown_agent (because FirecrackerError.could_not_chown_agent_server_vsock)
          ⨾ deferring (dropped reply (close_agent deferred))
              (run_vm devices io_engine_is_sync vm net port))

  -- `CreateSnapshot`
  unfoldable pub create_snapshot :
      List SnapshotDevice → Bool → VmConfiguration → NetworkConfiguration → ℕ → SnapshotAction
  create_snapshot devices io_engine_is_sync vm net port =
      call reply make_chroot_base_dir
        (because FirecrackerError.could_not_create_chroot_base_directory)
      ⨾ call reply start_machine (because FirecrackerError.could_not_start_firecracker_server)
      ⨾ deferring (dropped reply close_machine ⨾ dropped reply remove_vm_dir)
          (with_machine devices io_engine_is_sync vm net port)
