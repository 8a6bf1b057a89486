-- ===== src/Utils/Loop.antt =====
-- `LoopMount` of pkg/utils/loop.go.
use drafter.Base.{Bool, true, false, [], ◌∷◌, if◌then◌else◌}
use drafter.Errors.{GoError, Cause, LoopError}
use drafter.Script.{Oracle}
use drafter.Action.{Action, done, doing, call, by_state}

pub data LoopCall : Type 0 where
  attach detach : LoopCall

-- Whether the pointer to the device is set.
pub record LoopMount : Type 0 where
  pub device : Bool

abbrev pub because : LoopError → GoError
because e = Cause.loop e ∷ []

-- `NewLoopMount`
abbrev pub new_loop_mount : LoopMount
new_loop_mount = record { device = false }

module _ (reply : Oracle LoopCall) where
  -- `Open`
  unfoldable pub open_loop : Action LoopCall LoopMount
  open_loop =
      doing reply attach (because LoopError.could_not_attach_device) (λ l. record { device = true })
        (λ l. l)

  -- `Close`, which keeps the pointer.
  unfoldable pub close_loop : Action LoopCall LoopMount
  close_loop = by_state (λ l.
      if l.device then call reply detach (because LoopError.could_not_detach_device) else done)
