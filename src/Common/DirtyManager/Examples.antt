-- ===== src/Common/DirtyManager/Examples.antt =====
-- Runs of the dirty manager on one memory device, and instances of its theorems.
use drafter.Base.{ℕ, true, false, [], ◌∷◌, Returns, ◌≡◌, refl, arith, All, ◌⊎◌}
use drafter.Base.Dict.{Dict}
use drafter.Errors.{nil, Cause}
use drafter.Common.VmState.{
  Callbacks, VmStateMgr, authority_transfer, on_after_suspend, on_before_suspend, msync_func,
  suspend_func, suspend_and_msync,
}
use drafter.Common.VmState.Laws.{transfers}
use drafter.Common.DirtyManager.{
  DeviceStatus, DirtyManager, new_dirty_manager, run_segment, pre_get, post_get, migrate_suspend,
  migrate_cycle, pre_get_dirty, post_get_dirty, post_migrate_suspend, mark_device_ready,
  mark_ready_device_sent_dirty, transfer_authority, all_sent, finish_suspension,
}
use drafter.Common.DirtyManager.Readiness.{IsSound}
use drafter.Common.DirtyManager.Authority.{
  Reach, here, next, IsFresh, authority_transfer_once, suspended_when_sent, reached_no_panic,
}
use drafter.Common.DirtyManager.Finality.{failed_suspension_final}
use drafter.Common.DirtyManager.Cycles.{run_cycles, IsReadyIn, cycles_make_ready}

abbrev willing : Callbacks
willing calls c = nil

abbrev running : VmStateMgr
running = record {
  suspended = false;
  suspended_ch_closed = false;
  has_on_before_suspend = true;
  has_on_after_suspend = true;
  calls = [];
}

abbrev status : ℕ → DeviceStatus
status max_cycles = record {
  total_cycles = 0;
  cycle_throttle = 500;
  max_dirty_blocks = 200;
  cycles_below_dirty_block_treshold = 0;
  min_cycles = 1;
  max_cycles = max_cycles;
  ready = false;
  ready_and_sent_dirty = false;
  suspended_at_pre_get_dirty = false;
}

abbrev one_device : Dict DeviceStatus
one_device = ("memory", status 0) ∷ []

one_device-IsFresh : IsFresh running one_device
one_device-IsFresh = record {
  consistent = record { channel = refl };
  untransferred = refl;
  distinct = (refl, tt);
  unset = ((refl, refl, refl), tt);
}

-- The memory is ready at once, the VM is suspended, nothing is dirty any more, and authority is
-- transferred: the state after `pre_get`, `migrate_suspend`, `pre_get` and `post_get`.
abbrev transferred : DirtyManager
transferred = record {
  vm_state = record {
    suspended = true;
    suspended_ch_closed = true;
    has_on_before_suspend = true;
    has_on_after_suspend = true;
    calls =
        authority_transfer ∷ on_after_suspend ∷ msync_func ∷ suspend_func ∷ on_before_suspend ∷ [];
  };
  devices =
      (
        "memory",
        record (status 0) {
          ready = true;
          ready_and_sent_dirty = true;
          suspended_at_pre_get_dirty = true;
        },
      )
      ∷ [];
  ready_devices = "memory" ∷ [];
  authority_transfer_completed = true;
  suspend_completed = true;
  suspend_done_closed = true;
}

history : Reach willing (new_dirty_manager running one_device) transferred
unfolding new_dirty_manager run_segment pre_get_dirty post_get_dirty post_migrate_suspend
    mark_device_ready mark_ready_device_sent_dirty transfer_authority all_sent suspend_and_msync
    finish_suspension
history =
    next (post_get "memory" 0)
      (next (pre_get "memory") (next migrate_suspend (next (pre_get "memory") here refl) refl) refl)
      refl

authority_transfer_once_example :
    (transfers transferred.vm_state ≡ 0)
    ⊎ ((transfers transferred.vm_state ≡ 1)
        × (transferred.vm_state.suspended ≡ true)
        × (transferred.suspend_completed ≡ true)
        × All (λ e. (e.1.ready ≡ true) × (e.1.ready_and_sent_dirty ≡ true)) transferred.devices)
authority_transfer_once_example =
    authority_transfer_once willing running one_device one_device-IsFresh history

suspended_when_sent_example :
    All
      (λ e.
        ((e.1.ready_and_sent_dirty ≡ false) ⊎ (transferred.vm_state.suspended ≡ true))
        × ((transferred.suspend_completed ≡ false) ⊎ (e.1.ready ≡ true)))
      transferred.devices
suspended_when_sent_example =
    suspended_when_sent willing running one_device one_device-IsFresh history

reached_no_panic_example :
    Returns IsSound (run_segment willing (migrate_cycle "memory" 3) transferred)
reached_no_panic_example =
    reached_no_panic willing running one_device one_device-IsFresh history
      (migrate_cycle "memory" 3) (_, refl)

-- Two cycles at most, then one, of which one is long.
cycles_make_ready_example : Returns (IsReadyIn "disk") (
    run_cycles "disk"
      (10 ∷ 900 ∷ 10 ∷ 10 ∷ [])
      (new_dirty_manager running (("disk", status 2) ∷ [])))
unfolding new_dirty_manager
cycles_make_ready_example =
    cycles_make_ready "disk" (10 ∷ 900 ∷ 10 ∷ 10 ∷ []) (status 2)
      (new_dirty_manager running (("disk", status 2) ∷ [])) refl (omega arith)

-- A runner that cannot be suspended.
abbrev unwilling : Callbacks
unwilling calls suspend_func = Cause.external 1 ∷ []
unwilling calls c = nil

-- The memory is ready and its one attempt of a suspension has failed.
abbrev refused : DirtyManager
refused = record {
  vm_state = record running { calls = suspend_func ∷ on_before_suspend ∷ [] };
  devices = ("memory", record (status 0) { ready = true }) ∷ [];
  ready_devices = "memory" ∷ [];
  authority_transfer_completed = false;
  suspend_completed = true;
  suspend_done_closed = true;
}

failing : Reach unwilling (new_dirty_manager running one_device) refused
unfolding new_dirty_manager run_segment pre_get_dirty post_migrate_suspend mark_device_ready
    suspend_and_msync finish_suspension
failing = next migrate_suspend (next (pre_get "memory") here refl) refl

failed_suspension_final_example :
    (refused.vm_state.suspended ≡ false) × (transfers refused.vm_state ≡ 0)
unfolding run_segment post_migrate_suspend
failed_suspension_final_example =
    failed_suspension_final unwilling running one_device one_device-IsFresh failing refl refl again
  where
    again : Reach unwilling refused refused
    again = next migrate_suspend here refl
