-- ===== src/Runtimes/Examples.antt =====
-- A mock that writes to a disk, a replay of one, and a runtime of firecracker.
use drafter.Base.{ℕ, true, false, List, [], ◌∷◌, String, none, ◌≡◌, refl}
use drafter.Errors.{GoError, nil}
use drafter.Script.{Oracle}
use drafter.Action.{World, done}
use drafter.Action.Effects.{Still-done}
use drafter.Firecracker.Runtime.Resume.{Unmarshal, MemoryDevice}
use drafter.Firecracker.Runtime.Running.{IsConsistent}
use drafter.Runtimes.{IsRuntime}
use drafter.Runtimes.Mock.{MockCall, MockRuntimeProvider, mock_runtime, mock_suspend, mock_turn}
use drafter.Runtimes.Replay.{Cancellable, replay_runtime, replay_runtime-IsRuntime, replays}
use drafter.Runtimes.Firecracker.{firecracker_runtime, firecracker_runtime-IsRuntime, vm_runs}
use drafter.Runtimes.Stopped.{mock_suspend-quiet}
use drafter.Runtimes.Quiet.{Operation, starts, resumes, flushes, turns, live}

abbrev obliging : {C : Type 0} → Oracle C
obliging log c = nil

abbrev writer : World MockCall MockRuntimeProvider
writer = record {
  calls = [];
  state = record {
    home_path = "vm";
    do_writes = true;
    write_also = [];
    device_names = "disk" ∷ [];
    write_cancel = false;
    writers = 0;
    test_failed = false;
  };
}

abbrev before : List (Operation (String × ℕ))
before = starts ∷ resumes ∷ turns ("disk", 512) ∷ []

abbrev after : List (Operation (String × ℕ))
after = flushes ∷ turns ("disk", 1024) ∷ []

abbrev suspension : GoError × World MockCall MockRuntimeProvider
suspension = mock_suspend obliging (live (mock_runtime obliging) before writer)

abbrev suspended : World MockCall MockRuntimeProvider
suspended = live (mock_runtime obliging) after suspension.1

mock_suspend-quiet_example :
    (suspension.0 ≡ nil) × (mock_turn obliging ("disk", 0) suspended ≡ (nil, suspended))
mock_suspend-quiet_example = mock_suspend-quiet obliging before after writer "disk" 0 refl refl

replay_runtime-IsRuntime_example : IsRuntime (replay_runtime obliging) Cancellable replays
replay_runtime-IsRuntime_example = replay_runtime-IsRuntime obliging

abbrev no_json : Unmarshal
no_json content = none

abbrev one_block : MemoryDevice
one_block = record { num_blocks = 1; block_size = 4096; unrequired = [] }

firecracker_runtime-IsRuntime_example :
    IsRuntime (firecracker_runtime obliging no_json [] one_block done "vm" 7) IsConsistent vm_runs
firecracker_runtime-IsRuntime_example =
    firecracker_runtime-IsRuntime obliging no_json [] one_block done "vm" 7 Still-done
