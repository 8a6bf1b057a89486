-- ===== src/Runtimes/Firecracker.antt =====
-- `FirecrackerRuntimeProvider` of pkg/runtimes/firecracker/runtime.go as a runtime of pkg/runtimes. Its
-- goroutine is the memory grabber; `FlushDevices`, which stands in the module Firecracker.Memory, has no
-- part in the state here, and is an argument.
use drafter.Base.{ℕ, Bool, false, String, if◌then◌else◌, ◌≡◌, arith, subst, sym}
use drafter.Errors.{nil}
use drafter.Script.{Oracle}
use drafter.Action.{World, done, dropped, by_state}
use drafter.Action.Effects.{Still}
use drafter.Action.Invariants.{
  Keeps, Keeps-done, Keeps-set_state, Keeps-by_state, Keeps-if, Keeps-seq, Keeps-under, Keeps-doing,
  Keeps-call, Keeps-each, Keeps-dropped,
}
use drafter.Common.Package.{Content}
use drafter.Firecracker.Runtime.{
  RuntimeCall, Runtime, RuntimeAction, grab_memory_changes, start, suspend, flush_data, close,
  close_vm, close_machine_and_dir, with_machine, api,
}
use drafter.Firecracker.Runtime.Resume.{Unmarshal, MemoryDevice, resume}
use drafter.Firecracker.Runtime.Running.{
  IsConsistent, start-Safe, flush_data-Safe, suspend-Safe, close-Safe, resume-Safe,
}
use drafter.Firecracker.Runtime.Suspended.{suspend-ends, suspend-idle}
use drafter.Runtimes.{RuntimeProvider, IsRuntime}

module _ (reply : Oracle RuntimeCall) where
  -- A tick of the memory grabber, whose error is only logged.
  unfoldable pub grabber_turn : RuntimeAction
  grabber_turn = by_state (λ rt. if rt.grabbing then dropped reply grab_memory_changes else done)

  module _ (unmarshal : Unmarshal) (file : Content) (memory : MemoryDevice)
      (flush_devices : RuntimeAction) (device_path : String) (pid : ℕ) where
    unfoldable pub firecracker_runtime : RuntimeProvider RuntimeCall Runtime Unit
    firecracker_runtime = record {
      start = start reply;
      resume = resume reply unmarshal file memory;
      suspend = suspend reply;
      flush_data = flush_data reply;
      flush_devices = flush_devices;
      close = close reply;
      device_path = λ rt. device_path;
      get_vm_pid = λ rt. pid;
      turn = λ t. grabber_turn;
    }

-- A property of the state is kept by what leaves the state alone.
Keeps-Still : {P : Runtime → Type 0} {a : RuntimeAction} → Still a → Keeps P a
Keeps-Still {P} x = record { kept = λ w p. subst P (sym (x.unchanged w)) p }

abbrev pub vm_runs : Runtime → Bool
vm_runs rt = rt.running

abbrev Idle : Runtime → Type 0
Idle rt = rt.running ≡ false

module _ (reply : Oracle RuntimeCall) where
  start-Idle : Keeps Idle (start reply)
  unfolding start
  start-Idle = Keeps-doing Idle reply _ _ _ _ (λ rt h. h) (λ rt h. h)

  suspend-Idle : Keeps Idle (suspend reply)
  suspend-Idle = record {
    kept = λ w h. subst (λ r. r.1.state.running ≡ false) (sym (suspend-idle reply w h)) h;
  }

  flush_data-Idle : Keeps Idle (flush_data reply)
  unfolding flush_data with_machine
  flush_data-Idle = Keeps-by_state Idle (λ rt.
      Keeps-if Idle rt.grab_memory (Keeps-call Idle reply _ _) (
        Keeps-by_state Idle (λ rt'.
          Keeps-if Idle rt'.machine (Keeps-under Idle _ (Keeps-each Idle reply api _))
            (record { kept = λ w h. h }))))

  close-Idle : Keeps Idle (close reply)
  unfolding close close_vm close_machine_and_dir
  close-Idle =
      Keeps-seq Idle
        (Keeps-by_state Idle (λ rt.
          Keeps-if Idle rt.agent
            (Keeps-seq Idle (Keeps-set_state Idle _ (λ rt' h. h)) (
              Keeps-seq Idle suspend-Idle
                (Keeps-seq Idle (Keeps-set_state Idle _ (λ rt' h. h)) (Keeps-call Idle reply _ _))))
            (Keeps-done Idle)))
        (Keeps-by_state Idle (λ rt.
          Keeps-if Idle rt.machine
            (Keeps-seq Idle (Keeps-call Idle reply _ _) (Keeps-call Idle reply _ _))
            (Keeps-done Idle)))

  grabber_turn-Safe : Keeps IsConsistent (grabber_turn reply)
  unfolding grabber_turn
  grabber_turn-Safe = Keeps-by_state IsConsistent (λ rt.
      Keeps-if IsConsistent rt.grabbing (Keeps-dropped IsConsistent reply _)
        (Keeps-done IsConsistent))

  grabber_turn-idle :
      (w : World RuntimeCall Runtime)
      → IsConsistent w.state
      → w.state.running ≡ false
      → grabber_turn reply w ≡ (nil, w)
  unfolding grabber_turn by_state done
  grabber_turn-idle w s h = ground (arith, s.grabs, h)

  -- If FlushDevices leaves the state alone, the runtime of firecracker keeps the promises of a runtime,
  -- whatever its calls return: each operation and each tick of the memory grabber leaves it consistent, if it
  -- was; only Resume makes the VM run; a Suspend that returns nil has stopped it; and while it does not run a
  -- tick of the grabber makes no call and changes nothing.
  pub firecracker_runtime-IsRuntime :
      (unmarshal : Unmarshal) (file : Content) (memory : MemoryDevice)
      (flush_devices : RuntimeAction) (device_path : String) (pid : ℕ)
      → Still flush_devices
      → IsRuntime
          (firecracker_runtime reply unmarshal file memory flush_devices device_path pid)
          IsConsistent
          vm_runs
  unfolding firecracker_runtime
  firecracker_runtime-IsRuntime unmarshal file memory flush_devices device_path pid still = record {
    start-Sound = start-Safe reply;
    resume-Sound = resume-Safe reply unmarshal file memory;
    suspend-Sound = suspend-Safe reply;
    flush_data-Sound = flush_data-Safe reply;
    flush_devices-Sound = Keeps-Still still;
    close-Sound = close-Safe reply;
    turn-Sound = λ t. grabber_turn-Safe;
    start-Idle = start-Idle;
    suspend-Idle = suspend-Idle;
    flush_data-Idle = flush_data-Idle;
    flush_devices-Idle = Keeps-Still still;
    close-Idle = close-Idle;
    suspend-stops = λ w s h. (suspend-ends reply w h).0;
    turn-idle = λ t w s h. grabber_turn-idle w s h;
  }
