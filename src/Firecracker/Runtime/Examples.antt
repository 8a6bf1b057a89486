-- ===== src/Firecracker/Runtime/Examples.antt =====
-- A VM that runs and is suspended and closed, one that cannot be reached, and a memory of three blocks.
use drafter.Base.{String, ◌+◌, ◌≤◌, true, false, [], ◌∷◌, ◌++◌, ◌≡◌, refl, ◌⊎◌}
use drafter.Errors.{nil, failed, FirecrackerError, Cause}
use drafter.Script.{Oracle}
use drafter.Action.{
  World, ◌⨾◌, by_state, set_state, done, under, doing, each, dropped, deferring, on_failure,
}
use drafter.Action.Laws.{milestones}
use drafter.Common.Package.{Content, FileSystem, read_file}
use drafter.Firecracker.Machine.{because, ApiCall, pause_vm, create_snapshot_steps}
use drafter.Firecracker.Snapshot.{SnapshotDevice, SnapshotCall}
use drafter.Firecracker.Snapshot.Files.{
  marshal, copy_snapshot_files, copy_device, pad, padding_length, create_final_snapshot,
}
use drafter.Firecracker.Runtime.{
  RuntimeCall, Runtime, suspend, suspend_running, suspend_machine, close, close_vm,
  close_machine_and_dir, with_agent, with_machine, set_running, api, close_agent, before_suspend,
  get_remote, remove_vm_dir, close_machine,
}
use drafter.Firecracker.Runtime.Resume.{retry_guest, resume_max_retries, config_data}
use drafter.Firecracker.Runtime.Running.{
  IsConsistent, starts, suspends, closes, live, live-IsConsistent,
}
use drafter.Firecracker.Runtime.Suspended.{ends, suspension, suspend-order, close-order}
use drafter.Firecracker.Runtime.Retries.{tries, guest_answered, retry_guest-bounded}
use drafter.Firecracker.Runtime.Config.{config_data-marshal}

abbrev obliging : Oracle RuntimeCall
obliging log c = nil

abbrev running_vm : World RuntimeCall Runtime
running_vm = record {
  calls = [];
  state = record {
    no_map_shared = false;
    has_running_cb = true;
    has_grab_interval = true;
    direct_memory = false;
    grab_memory = false;
    machine = true;
    agent = true;
    dg = true;
    hypervisor_cancelled = false;
    running = true;
    callbacks = true ∷ [];
    grabbing = true;
    hooked = false;
    incoming_dirty = [];
  };
}

live-IsConsistent_example :
    IsConsistent (live obliging (suspends ∷ closes ∷ starts ∷ []) running_vm).state
live-IsConsistent_example =
    live-IsConsistent obliging (suspends ∷ closes ∷ starts ∷ []) running_vm
      (record { told = refl; changes = refl; grabs = refl })

suspend-order_example :
    ((suspend obliging running_vm).1.state.running ≡ false)
    × (milestones ends (suspend obliging running_vm).1.calls
        ≡ api (ApiCall.create_snapshot "" "state" "MsyncAndState")
          ∷ api pause_vm
          ∷ close_agent
          ∷ before_suspend
          ∷ get_remote
          ∷ [])
unfolding suspend suspend_running suspend_machine with_agent with_machine by_state ◌⨾◌ doing under
    each create_snapshot_steps set_state done set_running
suspend-order_example = suspend-order obliging running_vm refl refl

close-order_example :
    ((close obliging running_vm).1.state.running ≡ false)
    × (milestones ends (close obliging running_vm).1.calls
        ≡ remove_vm_dir ∷ close_machine ∷ close_agent ∷ suspension ++ [])
unfolding close close_vm close_machine_and_dir suspend suspend_running suspend_machine with_agent
    with_machine by_state ◌⨾◌ doing under each create_snapshot_steps set_state done set_running
close-order_example = close-order obliging running_vm refl refl refl

-- The guest is never reached.
abbrev silent : Oracle RuntimeCall
silent log c = Cause.external 1 ∷ []

retry_guest-bounded_example :
    let r = retry_guest silent resume_max_retries 0 running_vm in
    ((failed r.0 ≡ false) × (guest_answered r.1.calls ≡ true) × (tries r.1 ≤ tries running_vm + 9))
    ⊎ ((r.0 ≡ because FirecrackerError.could_not_resume_runner)
        × (tries r.1 ≡ tries running_vm + 9))
retry_guest-bounded_example = retry_guest-bounded silent running_vm

abbrev obliging_system : Oracle SnapshotCall
obliging_system log c = nil

-- What a failed copy leaves, and what firecracker writes.
abbrev nothing : Content → Content
nothing c = []

abbrev unwritten : FileSystem → FileSystem
unwritten fs = fs

abbrev in_vm : String → String
in_vm name = name

abbrev config_device : SnapshotDevice
config_device = record { name = "config"; input = ""; output = "out/config" }

abbrev nothing_yet : World SnapshotCall FileSystem
nothing_yet = record { calls = []; state = [] }

abbrev finished : World SnapshotCall FileSystem
finished = (create_final_snapshot obliging_system nothing in_vm unwritten 26 nothing_yet).1

config_data-marshal_example :
    config_data (
      read_file "out/config"
        (copy_snapshot_files obliging_system nothing in_vm (config_device ∷ []) finished).1.state)
    ≡ marshal 26
unfolding copy_snapshot_files copy_device pad padding_length create_final_snapshot
    create_snapshot_steps ◌⨾◌ doing dropped deferring on_failure under by_state set_state done each
    marshal
config_data-marshal_example =
    config_data-marshal obliging_system nothing in_vm unwritten 26 [] [] config_device nothing_yet
      refl (refl, tt, tt) refl refl
