-- ===== src/Common/VmState.antt =====
-- pkg/common/vm_state.go. The callbacks belong to whoever makes the manager: what they return is an
-- argument, and may depend on all the callbacks made before. Each call is logged.
pub mod Laws
mod Examples
use drafter.Base.{
  Bool, true, false, List, [], ◌∷◌, Outcome, returned, panicked, Panic, if◌then◌else◌,
}
use drafter.Errors.{
  GoError, nil, join, failed, Cause, CommonError, could_not_suspend_and_close_agent_server,
  could_not_msync_runner,
}

-- The callbacks of the manager, and that of the dirty manager which shares its log.
pub data Callback : Type 0 where
  on_before_suspend on_after_suspend suspend_func msync_func authority_transfer : Callback

-- What a callback returns, by the callbacks made before it, newest first.
abbrev pub Callbacks : Type 0
Callbacks = List Callback → Callback → GoError

pub record VmStateMgr : Type 0 where
  pub suspended : Bool
  pub suspended_ch_closed : Bool
  -- whether the hook is set, that is, not nil
  pub has_on_before_suspend : Bool
  pub has_on_after_suspend : Bool
  -- the callbacks made so far, newest first
  pub calls : List Callback

-- `NewVMStateMgr`
pub new_vm_state_mgr : Bool → Bool → VmStateMgr
new_vm_state_mgr before after = record {
  suspended = false;
  suspended_ch_closed = false;
  has_on_before_suspend = before;
  has_on_after_suspend = after;
  calls = [];
}

-- `NewDummyVMStateMgr`: both hooks are set, and every callback returns nil.
pub new_dummy_vm_state_mgr : VmStateMgr
new_dummy_vm_state_mgr = record {
  suspended = false;
  suspended_ch_closed = false;
  has_on_before_suspend = true;
  has_on_after_suspend = true;
  calls = [];
}

abbrev pub dummy_callbacks : Callbacks
dummy_callbacks calls c = nil

abbrev pub check_suspended_vm : VmStateMgr → Bool
check_suspended_vm sm = sm.suspended

abbrev pub log_call : Callback → VmStateMgr → VmStateMgr
log_call c sm = record sm { calls = c ∷ sm.calls }

-- A hook that may be nil.
abbrev pub run_hook : Bool → Callback → VmStateMgr → VmStateMgr
run_hook set c sm = if set then log_call c sm else sm

-- `sm.suspended = true; close(sm.suspendedCh)`: to close a closed channel panics.
abbrev pub finish_suspend : VmStateMgr → Outcome (GoError × VmStateMgr)
finish_suspend sm =
    if sm.suspended_ch_closed
    then panicked Panic.close_of_closed_channel
    else returned (nil, record sm { suspended = true; suspended_ch_closed = true })

-- `SuspendAndMsync` from the call of `msyncFunc` on.
abbrev pub msync_and_finish : Callbacks → VmStateMgr → Outcome (GoError × VmStateMgr)
msync_and_finish cb sm =
    let err = cb sm.calls msync_func in
    let sm' = log_call msync_func sm in
    if failed err
    then returned (join (Cause.common could_not_msync_runner ∷ []) err, sm')
    else finish_suspend (run_hook sm'.has_on_after_suspend on_after_suspend sm')

-- `SuspendAndMsync`
unfoldable pub suspend_and_msync : Callbacks → VmStateMgr → Outcome (GoError × VmStateMgr)
suspend_and_msync cb sm =
    let begun = run_hook sm.has_on_before_suspend on_before_suspend sm in
    let err = cb begun.calls suspend_func in
    let sm' = log_call suspend_func begun in
    if sm.suspended
    then returned (nil, sm)
    else (if failed err
        then returned (join (Cause.common could_not_suspend_and_close_agent_server ∷ []) err, sm')
        else msync_and_finish cb sm')

-- `Msync`
unfoldable pub msync : Callbacks → VmStateMgr → GoError × VmStateMgr
msync cb sm = (cb sm.calls msync_func, log_call msync_func sm)
