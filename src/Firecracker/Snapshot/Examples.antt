-- ===== src/Firecracker/Snapshot/Examples.antt =====
-- A snapshot of a machine with a state and a disk, where every call succeeds.
use drafter.Base.{true, false, reverse, ◌⊎◌, List, [], ◌∷◌, ◌++◌, String, ◌≡◌, refl, All}
use drafter.Errors.{GoError, nil, failed}
use drafter.Script.{Log, Oracle}
use drafter.Action.{
  World, ◌⨾◌, doing, dropped, deferring, on_failure, under, by_state, set_state, done, each,
}
use drafter.Action.Laws.{milestones}
use drafter.Common.Package.{Content, FileSystem}
use drafter.Firecracker.Machine.{
  VmConfiguration, NetworkConfiguration, ApiCall, pause_vm, start_vm_steps, drive_steps,
  create_snapshot_steps,
}
use drafter.Firecracker.Snapshot.{
  SnapshotDevice, SnapshotCall, server_error, api, close_agent, by_call, before_suspend, get_remote,
  wait_ready, receive_and_close, start_machine, remove_vm_dir, close_machine,
}
use drafter.Firecracker.Snapshot.Files.{copy_snapshot_files, copy_device, pad, padding_length}
use drafter.Firecracker.Snapshot.Files.{create_final_snapshot}
use drafter.Firecracker.Snapshot.Create.{
  create_snapshot, with_machine, run_vm, suspend_and_copy, copy_inputs, disks,
}
use drafter.Firecracker.Snapshot.Order.{leads, start_calls, create_snapshot-order}
use drafter.Firecracker.Snapshot.Cleanup.{starts, create_snapshot-cleans}
use drafter.Firecracker.Snapshot.Copied.{IsCopied, copy_snapshot_files-IsCopied}

abbrev obliging : Oracle SnapshotCall
obliging log c = nil

-- What a failed copy leaves.
abbrev nothing : Content → Content
nothing c = []

-- The file that a machine has under a name.
abbrev in_vm : String → String
in_vm name = name

abbrev state_device : SnapshotDevice
state_device = record { name = "state"; input = ""; output = "out/state" }

abbrev one_device : List SnapshotDevice
one_device = state_device ∷ []

abbrev with_state : World SnapshotCall FileSystem
with_state = record { calls = []; state = ("state", 7 ∷ []) ∷ [] }

copy_snapshot_files-IsCopied_example :
    All
      (IsCopied in_vm with_state.state
        (copy_snapshot_files obliging nothing in_vm one_device with_state).1.state)
      one_device
unfolding copy_snapshot_files copy_device pad padding_length ◌⨾◌ doing dropped deferring on_failure
    by_state done
copy_snapshot_files-IsCopied_example =
    copy_snapshot_files-IsCopied obliging nothing in_vm one_device with_state (refl, tt, tt) refl

-- A machine that has what firecracker writes of it.
abbrev snapshot_written : FileSystem → FileSystem
snapshot_written fs = ("state", 7 ∷ []) ∷ fs

abbrev small_vm : VmConfiguration
small_vm = record { cpu_count = 1; memory_size = 512; cpu_template = "None"; boot_args = "" }

abbrev tap_net : NetworkConfiguration
tap_net = record { interface_name = "tap0"; mac = "02:0e:d9:fd:68:3d" }

abbrev nothing_yet : World SnapshotCall FileSystem
nothing_yet = record { calls = []; state = [] }

abbrev snapshot_taken : GoError × World SnapshotCall FileSystem
snapshot_taken =
    create_snapshot obliging nothing in_vm snapshot_written [] false small_vm tap_net 26 nothing_yet

create_snapshot-order_example :
    milestones leads snapshot_taken.1.calls
    ≡ server_error
        ∷ api (ApiCall.create_snapshot "memory" "state" "Full")
        ∷ api pause_vm
        ∷ close_agent by_call
        ∷ before_suspend
        ∷ get_remote
        ∷ wait_ready
        ∷ receive_and_close
        ∷ reverse (start_calls [] false small_vm tap_net)
      ++ start_machine ∷ []
unfolding create_snapshot with_machine run_vm suspend_and_copy copy_inputs disks copy_snapshot_files
    create_final_snapshot ◌⨾◌ doing dropped deferring on_failure under by_state set_state done each
    start_vm_steps drive_steps create_snapshot_steps
create_snapshot-order_example =
    create_snapshot-order obliging nothing in_vm snapshot_written [] false small_vm tap_net 26
      nothing_yet refl

create_snapshot-cleans_example :
    ((milestones starts snapshot_taken.1.calls ≡ milestones starts nothing_yet.calls)
      × (failed snapshot_taken.0 ≡ true))
    ⊎ ((e e' : GoError) × (log : Log SnapshotCall) × (snapshot_taken.1.calls
          ≡ (remove_vm_dir, e) ∷ (close_machine, e') ∷ log))
create_snapshot-cleans_example =
    create_snapshot-cleans obliging nothing in_vm snapshot_written [] false small_vm tap_net 26
      nothing_yet
