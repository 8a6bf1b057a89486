-- ===== src/Common/MigrateTo/Examples.antt =====
-- The memory of a VM moved away, with its one handler run to the transfer.
use drafter.Base.{true, false, List, [], ◌∷◌, ◌≡◌, refl, All, ◌⊎◌}
use drafter.Errors.{nil}
use drafter.Script.{Oracle, run_steps, run_deferred}
use drafter.Common.VmState.{
  Callbacks, VmStateMgr, authority_transfer, on_after_suspend, on_before_suspend, msync_func,
  suspend_func, suspend_and_msync,
}
use drafter.Common.VmState.Laws.{transfers}
use drafter.Common.DirtyManager.{
  Segment, pre_get, post_get, migrate_suspend, new_dirty_manager, run_segment, pre_get_dirty,
  post_get_dirty, post_migrate_suspend, mark_device_ready, mark_ready_device_sent_dirty,
  transfer_authority, all_sent, finish_suspension,
}
use drafter.Common.MigrateTo.{
  MigrateToDevice, MoveCall, start_migration_to, migrate_all, migrate_dirty, completed, status_of,
  add_devices, run_segments, Moved, migrate_to_pipe,
}
use drafter.Common.MigrateTo.Moves.{migrate_to_pipe_authority}

abbrev willing : Callbacks
willing calls c = nil

abbrev obliging : Oracle MoveCall
obliging log c = nil

abbrev running : VmStateMgr
running = record {
  suspended = false;
  suspended_ch_closed = false;
  has_on_before_suspend = true;
  has_on_after_suspend = true;
  calls = [];
}

abbrev memory : MigrateToDevice
memory = record {
  name = "memory";
  max_dirty_blocks = 200;
  min_cycles = 1;
  max_cycles = 0;
  cycle_throttle = 500;
}

abbrev handlers : List Segment
handlers = pre_get "memory" ∷ migrate_suspend ∷ pre_get "memory" ∷ post_get "memory" 0 ∷ []

abbrev gone : Moved
gone = record {
  error = nil;
  manager = record {
    vm_state = record {
      suspended = true;
      suspended_ch_closed = true;
      has_on_before_suspend = true;
      has_on_after_suspend = true;
      calls =
          authority_transfer ∷ on_after_suspend ∷ msync_func ∷ suspend_func ∷ on_before_suspend
          ∷ [];
    };
    devices =
        (
          "memory",
          record (status_of memory) {
            ready = true;
            ready_and_sent_dirty = true;
            suspended_at_pre_get_dirty = true;
          },
        )
        ∷ [];
    ready_devices = "memory" ∷ [];
    authority_transfer_completed = true;
    suspend_completed = true;
    suspend_done_closed = true;
  };
  calls =
      (completed, nil) ∷ (migrate_dirty, nil) ∷ (migrate_all, nil) ∷ (start_migration_to, nil) ∷ [];
}

migrate_to_pipe_authority_example :
    (transfers gone.manager.vm_state ≡ 0)
    ⊎ ((transfers gone.manager.vm_state ≡ 1)
        × (gone.manager.vm_state.suspended ≡ true)
        × All (λ e. e.1.ready_and_sent_dirty ≡ true) gone.manager.devices)
unfolding migrate_to_pipe run_segments add_devices run_steps run_deferred new_dirty_manager
    run_segment pre_get_dirty post_get_dirty post_migrate_suspend mark_device_ready
    mark_ready_device_sent_dirty transfer_authority all_sent suspend_and_msync finish_suspension
migrate_to_pipe_authority_example =
    migrate_to_pipe_authority willing obliging handlers running (memory ∷ []) gone
      (record { channel = refl }) refl refl
