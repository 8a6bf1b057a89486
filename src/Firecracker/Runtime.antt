-- ===== src/Firecracker/Runtime.antt =====
-- `FirecrackerRuntimeProvider` of pkg/runtimes/firecracker/runtime.go. What the API, the guest and the
-- system return is an argument. An end by a panic is the error `Cause.panic`; memory that is grabbed while
-- the VM runs stands in the module Memory, and is a call here.
pub mod Incoming
pub mod Resume
pub mod Running
pub mod Suspended
pub mod Config
pub mod Retries
mod Examples
use drafter.Base.{ℕ, suc, Bool, true, false, not, ◌&&◌, List, [], ◌∷◌, String, if◌then◌else◌, Panic}
use drafter.Errors.{GoError, nil, Cause, FirecrackerError}
use drafter.Script.{Oracle}
use drafter.Action.{World, Action, ◌⨾◌, done, call, doing, each, under, by_state, set_state}
use drafter.Firecracker.Machine.{
  ApiCall, because, create_snapshot_steps, snapshot_type_msync, snapshot_type_msync_and_state,
}

pub data RuntimeCall : Type 0 where
  start_machine close_machine remove_vm_dir : RuntimeCall
  read_config open_process_memory grab_memory_changes : RuntimeCall
  start_agent close_agent get_remote after_resume before_suspend : RuntimeCall
  api : ApiCall → RuntimeCall

pub record Runtime : Type 0 where
  -- what it was configured with
  pub no_map_shared : Bool
  pub has_running_cb : Bool
  pub has_grab_interval : Bool
  pub direct_memory : Bool
  pub grab_memory : Bool
  -- whether the pointers are set
  pub machine : Bool
  pub agent : Bool
  pub dg : Bool
  pub hypervisor_cancelled : Bool
  pub running : Bool
  -- what `RunningCB` was called with, newest first
  pub callbacks : List Bool
  -- whether the goroutine of the grabber runs
  pub grabbing : Bool
  -- whether writes to the devices are reported as late
  pub hooked : Bool
  -- the offsets of the memory that were marked as dirty when it came in
  pub incoming_dirty : List ℕ

abbrev pub RuntimeAction : Type 0
RuntimeAction = Action RuntimeCall Runtime

abbrev pub panics : Panic → RuntimeAction
panics p w = (Cause.panic p ∷ [], w)

-- A use of the pointer to the machine, or to the agent.
unfoldable pub with_machine : RuntimeAction → RuntimeAction
with_machine a = by_state (λ rt. if rt.machine then a else panics Panic.nil_pointer)

unfoldable pub with_agent : RuntimeAction → RuntimeAction
with_agent a = by_state (λ rt. if rt.agent then a else panics Panic.nil_pointer)

-- `setRunning` where it changes something.
abbrev pub change_running : Bool → Runtime → Runtime
change_running r rt = record rt {
  running = r;
  callbacks = if rt.has_running_cb then r ∷ rt.callbacks else rt.callbacks;
  grabbing = if rt.has_grab_interval then r else rt.grabbing;
}

-- `setRunning`
unfoldable pub set_running : Bool → Runtime → Runtime
set_running true rt = if rt.running then rt else change_running true rt
set_running false rt = if rt.running then change_running false rt else rt

module _ (reply : Oracle RuntimeCall) where
  abbrev pub say : RuntimeCall → GoError → RuntimeAction
  say = call reply

  -- `Start`
  unfoldable pub start : RuntimeAction
  start =
      doing reply start_machine nil
        (λ (rt : Runtime). record rt { machine = true; hypervisor_cancelled = false })
        (λ (rt : Runtime). record rt { machine = false; hypervisor_cancelled = false })

  -- `FlushData`
  unfoldable pub flush_data : RuntimeAction
  flush_data = by_state (λ rt.
      if rt.grab_memory
      then say grab_memory_changes nil
      else with_machine (
          under (because FirecrackerError.could_not_create_snapshot)
            (each reply api (create_snapshot_steps "state" "" snapshot_type_msync))))

  -- The snapshot of `Suspend`, and what comes behind it.
  unfoldable pub suspend_machine : RuntimeAction
  suspend_machine =
      with_machine (
        under (because FirecrackerError.could_not_create_snapshot)
          (each reply api (create_snapshot_steps "state" "" snapshot_type_msync_and_state)))
      ⨾ set_state (λ (rt : Runtime). set_running false (record rt { hooked = rt.dg }))
      ⨾ by_state (λ rt. if rt.grab_memory then say grab_memory_changes nil else done)

  -- `Suspend` of a VM that runs.
  unfoldable pub suspend_running : RuntimeAction
  suspend_running =
      with_agent (say get_remote nil)
      ⨾ say before_suspend (because FirecrackerError.could_not_call_before_suspend_rpc)
      ⨾ say close_agent nil
      ⨾ suspend_machine

  -- `Suspend`
  unfoldable pub suspend : RuntimeAction
  suspend = by_state (λ rt. if rt.running then suspend_running else done)

  -- `Close` of the VM, if there was ever an agent.
  unfoldable pub close_vm : RuntimeAction
  close_vm =
      set_state (λ (rt : Runtime). record rt { grab_memory = false })
      ⨾ suspend
      ⨾ set_state (λ (rt : Runtime). record rt { hypervisor_cancelled = true })
      ⨾ say close_agent nil

  -- `Close` of the machine, if there is one.
  unfoldable pub close_machine_and_dir : RuntimeAction
  close_machine_and_dir =
      say close_machine (because FirecrackerError.could_not_close_server)
      ⨾ say remove_vm_dir (because FirecrackerError.could_not_remove_vm_dir)

  -- `Close`
  unfoldable pub close : RuntimeAction
  close =
      by_state (λ rt. if rt.agent then close_vm else done)
      ⨾ by_state (λ rt. if rt.machine then close_machine_and_dir else done)
