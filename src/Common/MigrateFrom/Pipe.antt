-- ===== src/Common/MigrateFrom/Pipe.antt =====
-- `MigrateFromPipe` of pkg/common/migrations.go.
use drafter.Base.{
  Bool, true, false, List, [], ◌∷◌, String, if◌then◌else◌, Panic, Outcome, returned, panicked,
}
use drafter.Errors.{nil}
use drafter.Script.{Oracle}
use drafter.Action.{Action, ◌⨾◌, done, call}
use drafter.Common.MigrateFrom.{
  MigrationCall, expose_silo_device_as_file, new_from_protocol, await_ready,
}

-- What `pro.Handle` may return; the text of the others does not matter.
pub data HandleEnd : Type 0 where
  ended end_of_file cancelled broken : HandleEnd

-- Whether the goroutine behind the protocol cancels its context.
unfoldable pub cancels_protocol : HandleEnd → Bool
cancels_protocol ended = false
cancels_protocol end_of_file = false
cancels_protocol cancelled = true
cancels_protocol broken = true

-- The handler of custom data, which closes the channel: whether it is closed already is the argument.
unfoldable pub custom_data : Bool → Outcome Bool
custom_data ready_closed =
    if ready_closed then panicked Panic.close_of_closed_channel else returned true

-- A device of the group: its name, and whether it is exposed.
pub record GroupDevice : Type 0 where
  pub name : String
  pub exposed : Bool

module _ {S : Type 0} (reply : Oracle MigrationCall) (vm_path : String)
    (device_path : String → String) where
  -- The loop over the names of the group.
  unfoldable pub expose_all : List GroupDevice → Action MigrationCall S
  expose_all [] = done
  expose_all (d ∷ ds) =
      (if d.exposed
        then expose_silo_device_as_file reply vm_path d.name (device_path d.name)
        else done)
      ⨾ expose_all ds

  -- `MigrateFromPipe`: the error of the wait is that of the context.
  unfoldable pub migrate_from_pipe : List GroupDevice → Action MigrationCall S
  migrate_from_pipe devices =
      call reply new_from_protocol nil ⨾ expose_all devices ⨾ call reply await_ready nil
