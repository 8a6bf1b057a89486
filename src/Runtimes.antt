-- ===== src/Runtimes.antt =====
-- pkg/runtimes: `RuntimeProviderIfc` of runtime_provider.go, what its users may rely on, and the runtimes
-- that stand beside that of firecracker.
pub mod Empty
pub mod Mock
pub mod Replay
pub mod Quiet
pub mod Stopped
pub mod Firecracker
mod Examples
use drafter.Base.{ℕ, Bool, true, false, List, [], ◌∷◌, String, ◌≡◌}
use drafter.Errors.{nil, failed}
use drafter.Action.{World, Action}
use drafter.Action.Invariants.{Keeps}

-- `RuntimeProviderIfc`, of calls, a state, and what a turn of a goroutine of the runtime depends on.
pub record RuntimeProvider (C S T : Type 0) : Type 0 where
  pub start : Action C S
  pub resume : Action C S
  pub suspend : Action C S
  pub flush_data : Action C S
  pub flush_devices : Action C S
  pub close : Action C S
  pub device_path : S → String
  pub get_vm_pid : S → ℕ
  -- a turn of the goroutines that the runtime has started
  pub turn : T → Action C S

-- What a runtime promises: a state in which its parts agree is left so by each operation; only a Resume
-- makes it run; a Suspend that returns nil has stopped it; and one that does not run does nothing.
pub record IsRuntime {C S T : Type 0} (rp : RuntimeProvider C S T) (Sound : S → Type 0)
    (runs : S → Bool) : Type 0 where
  pub start-Sound : Keeps {C = C} Sound rp.start
  pub resume-Sound : Keeps {C = C} Sound rp.resume
  pub suspend-Sound : Keeps {C = C} Sound rp.suspend
  pub flush_data-Sound : Keeps {C = C} Sound rp.flush_data
  pub flush_devices-Sound : Keeps {C = C} Sound rp.flush_devices
  pub close-Sound : Keeps {C = C} Sound rp.close
  pub turn-Sound : (t : T) → Keeps {C = C} Sound (rp.turn t)
  pub start-Idle : Keeps {C = C} (λ s. runs s ≡ false) rp.start
  pub suspend-Idle : Keeps {C = C} (λ s. runs s ≡ false) rp.suspend
  pub flush_data-Idle : Keeps {C = C} (λ s. runs s ≡ false) rp.flush_data
  pub flush_devices-Idle : Keeps {C = C} (λ s. runs s ≡ false) rp.flush_devices
  pub close-Idle : Keeps {C = C} (λ s. runs s ≡ false) rp.close
  pub suspend-stops :
      (w : World C S)
      → Sound w.state
      → failed (rp.suspend w).0 ≡ false
      → runs (rp.suspend w).1.state ≡ false
  pub turn-idle :
      (t : T) (w : World C S) → Sound w.state → runs w.state ≡ false → rp.turn t w ≡ (nil, w)
