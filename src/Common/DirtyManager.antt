-- ===== src/Common/DirtyManager.antt =====
-- pkg/common/dirty_manager.go. A `*DeviceStatus` is named by the key under which `Devices` holds
-- it: `ReadyDevices` maps a key to the same pointer, so it is the list of its keys, and a write
-- through either map is a write to the entry of `devices`. Go's counters are unbounded numbers.
-- A handler is cut into the segments that the locks make atomic; other handlers run in between.
pub mod Readiness
pub mod Invariant
pub mod Authority
pub mod Finality
pub mod Cycles
mod Examples
use drafter.Base.{
  ℕ, ◌+◌, Bool, true, false, not, ◌&&◌, ◌||◌, List, [], ◌∷◌, String, Option, none, some, Outcome,
  returned, panicked, Panic, ◌>>=◌, if◌then◌else◌, ltb, leb, ◌==◌, str_eq, length,
}
use drafter.Base.Dict.{Dict, lookup, modify, contains}
use drafter.Errors.{
  GoError, nil, join, failed, Cause, could_not_msync_runner, could_not_suspend_and_msync_vm,
}
use drafter.Common.VmState.{
  Callbacks, VmStateMgr, check_suspended_vm, suspend_and_msync, msync, authority_transfer, log_call,
}

pub record DeviceStatus : Type 0 where
  pub total_cycles : ℕ
  pub cycle_throttle : ℕ
  pub max_dirty_blocks : ℕ
  pub cycles_below_dirty_block_treshold : ℕ
  pub min_cycles : ℕ
  pub max_cycles : ℕ
  pub ready : Bool
  pub ready_and_sent_dirty : Bool
  pub suspended_at_pre_get_dirty : Bool

pub record DirtyManager : Type 0 where
  pub vm_state : VmStateMgr
  pub devices : Dict DeviceStatus
  pub ready_devices : List String
  pub authority_transfer_completed : Bool
  pub suspend_completed : Bool
  pub suspend_done_closed : Bool

-- `NewDirtyManager`
unfoldable pub new_dirty_manager : VmStateMgr → Dict DeviceStatus → DirtyManager
new_dirty_manager sm devices = record {
  vm_state = sm;
  devices = devices;
  ready_devices = [];
  authority_transfer_completed = false;
  suspend_completed = false;
  suspend_done_closed = false;
}

-- `DeviceMemoryName`
abbrev pub device_memory_name : String
device_memory_name = "memory"

-- `dm.Devices[name]`, which every handler dereferences.
abbrev pub device : String → DirtyManager → Outcome DeviceStatus
device name dm = elim (lookup name dm.devices) [
  | none ↦ panicked Panic.nil_pointer
  | some di ↦ returned di
]

abbrev pub write_device : String → (DeviceStatus → DeviceStatus) → DirtyManager → DirtyManager
write_device name f dm = record dm { devices = modify name f dm.devices }

abbrev pub set_ready : DeviceStatus → DeviceStatus
set_ready di = record di { ready = true }

-- `markDeviceReady`
unfoldable pub mark_device_ready : String → DeviceStatus → DirtyManager → DirtyManager
mark_device_ready name di dm = if di.ready then dm else record dm {
  devices = modify name set_ready dm.devices;
  ready_devices =
      if contains name dm.ready_devices then dm.ready_devices else name ∷ dm.ready_devices;
}

-- The loop over all devices in `markReadyDeviceSentDirty`.
unfoldable pub all_sent : Dict DeviceStatus → Bool
all_sent [] = true
all_sent ((_, di) ∷ ds) = if not di.ready || not di.ready_and_sent_dirty then false else all_sent ds

-- The end of `markReadyDeviceSentDirty`, from `suspendLock` on.
unfoldable pub transfer_authority : Callbacks → DirtyManager → GoError × DirtyManager
transfer_authority cb dm =
    if not dm.suspend_completed
    then (nil, dm)
    else (if dm.authority_transfer_completed then (nil, dm) else (
      cb dm.vm_state.calls authority_transfer,
      record dm {
        authority_transfer_completed = true;
        vm_state = log_call authority_transfer dm.vm_state;
      },
    ))

abbrev pub set_sent : DeviceStatus → DeviceStatus
set_sent di = record di { ready_and_sent_dirty = true }

-- `markReadyDeviceSentDirty`, one segment under `ReadyDevicesLock`.
unfoldable pub mark_ready_device_sent_dirty :
    Callbacks → String → DirtyManager → GoError × DirtyManager
mark_ready_device_sent_dirty cb name dm =
    let sent = write_device name set_sent dm in
    if contains name dm.ready_devices
    then (if all_sent sent.devices then transfer_authority cb sent else (nil, sent))
    else (nil, dm)

-- What a handler returns: whether Silo goes on, and an error.
abbrev pub Reply : Type 0
Reply = Bool × GoError

abbrev pub note_suspended : Bool → DeviceStatus → DeviceStatus
note_suspended is_suspended di = record di { suspended_at_pre_get_dirty = is_suspended }

-- `PreGetDirty` once the device is found.
pub pre_get_dirty_of : Callbacks → String → DeviceStatus → DirtyManager → Reply × DirtyManager
unfolding msync
pre_get_dirty_of cb name di dm =
    let is_suspended = check_suspended_vm dm.vm_state in
    let noted = write_device name (note_suspended is_suspended) dm in
    let (err, sm) = msync cb dm.vm_state in
    let synced = record noted { vm_state = sm } in
    if not is_suspended && str_eq name device_memory_name
    then (if ltb 0 di.max_cycles
        then (if failed err
            then ((true, join (Cause.common could_not_msync_runner ∷ []) err), synced)
            else ((true, nil), synced))
        else ((false, nil), mark_device_ready name (note_suspended is_suspended di) noted))
    else ((true, nil), noted)

-- `PreGetDirty`
unfoldable pub pre_get_dirty : Callbacks → String → DirtyManager → Outcome (Reply × DirtyManager)
unfolding pre_get_dirty_of
pre_get_dirty cb name dm = do di ← device name dm; returned (pre_get_dirty_of cb name di dm)

-- The guard of `PostGetDirty`, left to right.
post_get_dirty_of : Callbacks → String → ℕ → DeviceStatus → DirtyManager → Reply × DirtyManager
post_get_dirty_of cb name blocks di dm =
    let marked = mark_ready_device_sent_dirty cb name dm in
    if di.suspended_at_pre_get_dirty then ((false, marked.0), marked.1) else ((true, nil), dm)

-- `PostGetDirty`; of the dirty blocks only their number matters.
unfoldable pub post_get_dirty :
    Callbacks → String → ℕ → DirtyManager → Outcome (Reply × DirtyManager)
unfolding post_get_dirty_of
post_get_dirty cb name blocks dm =
    if blocks == 0
    then device name dm >>= (λ di. returned (post_get_dirty_of cb name blocks di dm))
    else returned ((true, nil), dm)

-- `PostMigrateDirty` up to its delay: a reply, or `none` where it goes on to count a cycle.
pub post_migrate_enter : Callbacks → String → DirtyManager → Outcome (Option Reply × DirtyManager)
post_migrate_enter cb name dm = device name dm >>= λ di.
    let marked = mark_ready_device_sent_dirty cb name dm in
    returned
      (if di.suspended_at_pre_get_dirty then (some (false, marked.0), marked.1) else (none, dm))

-- The counters after one cycle in which `blocks` blocks were dirty.
pub count_cycle : ℕ → DeviceStatus → DeviceStatus
count_cycle blocks di =
    let counted = record di { total_cycles = di.total_cycles + 1 } in
    if ltb blocks di.max_dirty_blocks
    then record counted {
      cycles_below_dirty_block_treshold = di.cycles_below_dirty_block_treshold + 1;
    }
    else (if leb di.max_cycles counted.total_cycles
        then counted
        else record counted { cycles_below_dirty_block_treshold = 0 })

-- Whether the cycle, whose counters are `di`, makes the device ready.
pub cycle_is_ready : ℕ → DeviceStatus → Bool
cycle_is_ready blocks di =
    if ltb blocks di.max_dirty_blocks
    then ltb di.min_cycles di.cycles_below_dirty_block_treshold
    else leb di.max_cycles di.total_cycles

-- `PostMigrateDirty` from its delay to the count of the ready devices. The delay, cut short or not
-- by `suspendDoneCh`, changes no state.
pub post_migrate_cycle : String → ℕ → DirtyManager → Outcome DirtyManager
post_migrate_cycle name blocks dm = device name dm >>= λ di.
    let counted = count_cycle blocks di in
    let dm' = write_device name (count_cycle blocks) dm in
    returned (if cycle_is_ready blocks counted then mark_device_ready name counted dm' else dm')

-- What follows `SuspendAndMsync`: a second close of `suspendDoneCh` would panic.
unfoldable pub finish_suspension :
    GoError × VmStateMgr → DirtyManager → Outcome (Reply × DirtyManager)
finish_suspension (err, sm) dm =
    if dm.suspend_done_closed
    then panicked Panic.close_of_closed_channel
    else returned (
      (
        true,
        (if failed err then join (Cause.common could_not_suspend_and_msync_vm ∷ []) err else nil),
      ),
      record dm { vm_state = sm; suspend_completed = true; suspend_done_closed = true },
    )

-- The rest of `PostMigrateDirty`: once all devices are ready the first to get here suspends the VM.
unfoldable pub post_migrate_suspend : Callbacks → DirtyManager → Outcome (Reply × DirtyManager)
post_migrate_suspend cb dm =
    if length dm.ready_devices == length dm.devices
    then (if dm.suspend_completed
        then returned ((true, nil), dm)
        else suspend_and_msync cb dm.vm_state >>= (λ r. finish_suspension r dm))
    else returned ((true, nil), dm)

-- `PostMigrateDirty` with nothing in between its segments.
pub post_migrate_dirty : Callbacks → String → ℕ → DirtyManager → Outcome (Reply × DirtyManager)
post_migrate_dirty cb name blocks dm = do
  (replied, entered) ← post_migrate_enter cb name dm
  elim replied [
    | some reply ↦ returned (reply, entered)
    | none ↦ post_migrate_cycle name blocks entered >>= post_migrate_suspend cb
  ]

-- The atomic segments of the handlers.
pub data Segment : Type 0 where
  pre_get : String → Segment
  post_get : String → ℕ → Segment
  migrate_enter : String → Segment
  migrate_cycle : String → ℕ → Segment
  migrate_suspend : Segment

-- The state after a segment.
unfoldable pub run_segment : Callbacks → Segment → DirtyManager → Outcome DirtyManager
run_segment cb (pre_get name) dm = pre_get_dirty cb name dm >>= λ r. returned r.1
run_segment cb (post_get name blocks) dm = post_get_dirty cb name blocks dm >>= λ r. returned r.1
run_segment cb (migrate_enter name) dm = post_migrate_enter cb name dm >>= λ r. returned r.1
run_segment cb (migrate_cycle name blocks) dm = post_migrate_cycle name blocks dm
run_segment cb migrate_suspend dm = post_migrate_suspend cb dm >>= λ r. returned r.1
