-- ===== src/Runtimes/Empty.antt =====
-- `EmptyRuntimeProvider` of pkg/runtimes/empty.go, which does nothing. It has no goroutine.
use drafter.Base.{Bool, false, String, refl}
use drafter.Action.{done}
use drafter.Action.Invariants.{Keeps-done}
use drafter.Runtimes.{RuntimeProvider, IsRuntime}

pub record EmptyRuntimeProvider : Type 0 where
  pub home_path : String

unfoldable pub empty_runtime : {C : Type 0} → RuntimeProvider C EmptyRuntimeProvider Unit
empty_runtime = record {
  start = done;
  resume = done;
  suspend = done;
  flush_data = done;
  flush_devices = done;
  close = done;
  device_path = λ rp. rp.home_path;
  get_vm_pid = λ rp. 0;
  turn = λ t. done;
}

abbrev pub never : EmptyRuntimeProvider → Bool
never rp = false

-- The empty runtime keeps the promises of a runtime, and never runs.
pub empty_runtime-IsRuntime : {C : Type 0} → IsRuntime (empty_runtime {C = C}) (λ rp. Unit) never
unfolding empty_runtime done
empty_runtime-IsRuntime = record {
  start-Sound = Keeps-done _;
  resume-Sound = Keeps-done _;
  suspend-Sound = Keeps-done _;
  flush_data-Sound = Keeps-done _;
  flush_devices-Sound = Keeps-done _;
  close-Sound = Keeps-done _;
  turn-Sound = λ t. Keeps-done _;
  start-Idle = Keeps-done _;
  suspend-Idle = Keeps-done _;
  flush_data-Idle = Keeps-done _;
  flush_devices-Idle = Keeps-done _;
  close-Idle = Keeps-done _;
  suspend-stops = λ w s h. refl;
  turn-idle = λ t w s h. refl;
}
