-- ===== src/Common/MigrateTo.antt =====
-- `MigrateToPipe` of pkg/common/migrations.go. The calls of Silo are an argument, and so is the order in
-- which Silo runs the handlers of the dirty manager while it migrates what is dirty, by their segments.
pub mod Moves
mod Examples
use drafter.Base.{
  ℕ, List, [], ◌∷◌, String, Option, none, some, Outcome, returned, ◌>>=◌, if◌then◌else◌, Bool,
  false,
}
use drafter.Base.Dict.{Dict, insert}
use drafter.Errors.{GoError, nil, failed}
use drafter.Script.{Step, attempt, Log, Oracle, Done, run_script, called}
use drafter.Common.VmState.{Callbacks, VmStateMgr}
use drafter.Common.DirtyManager.{
  DeviceStatus, DirtyManager, new_dirty_manager, Segment, run_segment,
}

pub record MigrateToDevice : Type 0 where
  pub name : String
  pub max_dirty_blocks : ℕ
  pub min_cycles : ℕ
  pub max_cycles : ℕ
  pub cycle_throttle : ℕ

pub data MoveCall : Type 0 where
  start_migration_to migrate_all migrate_dirty completed : MoveCall

-- The status that a device starts with.
abbrev pub status_of : MigrateToDevice → DeviceStatus
status_of d = record {
  total_cycles = 0;
  cycle_throttle = d.cycle_throttle;
  max_dirty_blocks = d.max_dirty_blocks;
  cycles_below_dirty_block_treshold = 0;
  min_cycles = d.min_cycles;
  max_cycles = d.max_cycles;
  ready = false;
  ready_and_sent_dirty = false;
  suspended_at_pre_get_dirty = false;
}

-- The loop that fills `dirtyDevices`.
unfoldable pub add_devices : List MigrateToDevice → Dict DeviceStatus → Dict DeviceStatus
add_devices [] m = m
add_devices (d ∷ ds) m = add_devices ds (insert d.name (status_of d) m)

abbrev pub dirty_devices : List MigrateToDevice → Dict DeviceStatus
dirty_devices ds = add_devices ds []

unfoldable pub run_segments : Callbacks → List Segment → DirtyManager → Outcome DirtyManager
run_segments cb [] dm = returned dm
run_segments cb (seg ∷ segs) dm = run_segment cb seg dm >>= run_segments cb segs

-- What is left when it returns: its error, the dirty manager, and the calls.
pub record Moved : Type 0 where
  pub error : GoError
  pub manager : DirtyManager
  pub calls : Log MoveCall

-- What is sent before anything is dirty.
abbrev pub move_steps : List (Step MoveCall Unit)
move_steps = attempt start_migration_to nil ∷ attempt migrate_all nil ∷ []

abbrev pub finish_steps : List (Step MoveCall Unit)
finish_steps = attempt migrate_dirty nil ∷ attempt completed nil ∷ []

-- `MigrateToPipe`. Where it returns before it makes the dirty manager, the one that is left is new.
unfoldable pub migrate_to_pipe :
    Callbacks → Oracle MoveCall → List Segment → VmStateMgr → List MigrateToDevice → Outcome Moved
unfolding run_segments
migrate_to_pipe cb reply segs vm devices =
    let moved = run_script reply move_steps [] in
    let fresh = new_dirty_manager vm (dirty_devices devices) in
    if failed moved.error
    then returned (record { error = moved.error; manager = fresh; calls = moved.calls })
    else (run_segments cb segs fresh >>= λ dm.
        let done = run_script reply finish_steps moved.calls in
        returned (record { error = done.error; manager = dm; calls = done.calls }))
